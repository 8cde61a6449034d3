-- ===== src/Lib.antt =====
-- telefacet: the client of the cherupi-v4l2 camera servers, as a library of checked models.
--
-- The program connects to one or more servers over WebSocket. Each connection puts frames together
-- from binary messages (src/net/ChunkReassembler) in buffers of a shared pool
-- (src/data/FrameBufferPool), and the camera store (src/data/CameraStore) keeps the newest frame of
-- each camera, from which the windows and the embedding program read. Text messages of the server,
-- JSON, tell the connection the cameras, the server's state and the results of captures, whose frames
-- it then matches to them (src/net/WebSocketClient).
--
-- Shared: numbers, bytes, lists, maps and strings. A `uint8_t` array is a list of numbers; numbers
--   of fixed width are natural numbers with the wrap-around written out where the code can reach it.
-- Frame: the data of src/data/FrameBufferPool.hpp. A float is its bit pattern.
-- Wire: src/net/Protocol.hpp; Wire/Layout is the layout as an encoder.
-- Detection: parseCornerBlock and parseMarkerBlock of src/net/ChunkReassembler.cpp. A read past the
--   end of the message is an outcome of its own. The loops run on the announced count and stop at
--   the end of the block, so their recursion is on the count, with no fuel.
-- Pool: src/data/FrameBufferPool.cpp. The number of owners of a buffer is an argument of `release`.
-- Reassembly: the class of src/net/ChunkReassembler.cpp. The callback that takes a finished frame is
--   a parameter, a function of the pool and of the rest of the program; the clock is an argument of
--   each message. Reassembly/Delivery says what a server sends.
-- Stats: CameraLiveStats of src/data/CameraStore.hpp. Floating-point arithmetic is a parameter.
-- Cameras: src/data/CameraStore.cpp, `addCamera` as add_camera, `rebuildGlobalIdsSorted` as
--   rebuild_global_ids_sorted, and so on. `std::to_string` runs on a fuel of one more than the
--   number, which is more than it has digits.
-- Json: the operations of nlohmann::json that the code uses, a parameter; an exception is `none`.
-- Captures: the capture bookkeeping of src/net/WebSocketClient.cpp, from sendCaptureRequest to the
--   last frame. What the receive thread does while a command is sent is part of the argument `send`.
-- Messages: the structs of src/net/WebSocketClient.hpp and how handleText reads them.
-- Connection: handleText and onAssembled of src/net/WebSocketClient.cpp, with the callbacks as a list
--   of events and the state that an exception leaves behind.
-- Commands: the commands of src/net/WebSocketClient.cpp, one constructor and its JSON for each method,
--   and sendCommand. JSON, the order of doubles and the socket are parameters.
-- Sidecar: the names of files and directories and captureSidecar of src/data/CaptureSaver.cpp.
-- Writing, Saver: `write`, and the rest of the class, of src/data/CaptureSaver.cpp. The file system is
--   a parameter, and the clock an argument; callers and the writing thread take steps in any order,
--   a write and the note of its outcome being one step. The counts are natural numbers: they count
--   files.
-- Manager: onDiscovery, onFrame and onCaptureFrame of src/net/MultiServerManager.cpp.
-- Rendezvous: onCaptureResult, onCaptureRefused, onCaptureFrame and runCapture of
--   src/client/Client.cpp. The reports of the receive threads are sequences: those before the request
--   is sent everywhere, and those before the deadline, cut where the waiting thread looks.
-- Client: what triggerCapture, stackCapture, latest and poll of src/client/Client.cpp return, as
--   trigger_outcome, stack_outcome, latest and poll. A map from servers is a list in any order.
-- Config: src/config/ConfigLoader: the structs, Config/Validation what is accepted, and Config/Load the
--   reading. The YAML library and the comparison of doubles are parameters, and what loadFromFile
--   throws is a value.
-- Broadcast: the commands to all servers, startStream, stopStream and savingParamsFromConfig of
--   src/net/MultiServerManager.cpp, over an interface of the connections (Links).
-- StackImage: npyHeader and stackImageNpy of src/data/StackImage.cpp; a read past the buffer is an
--   outcome of its own. The loop over the rows recurses on the number of rows.
-- Tests: in each part, the code run on small inputs and the theorems at them.
--
-- Not modelled: the mutexes (each operation of a class is one step, in the order of a sequence of
-- operations), log lines, the constructors, the opening and closing of a connection, the client's
-- start and stop, the grey image of src/data/StackImage, and the code that draws (src/ui, src/gl,
-- src/app).
pub mod Shared
pub mod Frame
pub mod Wire
pub mod Detection
pub mod Pool
pub mod Reassembly
pub mod Broadcast
pub mod Cameras
pub mod Captures
pub mod Client
pub mod Commands
pub mod Config
pub mod Connection
pub mod Json
pub mod Manager
pub mod Messages
pub mod Rendezvous
pub mod Saver
pub mod Sidecar
pub mod StackImage
pub mod Stats
pub mod Writing
