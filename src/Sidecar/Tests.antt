-- ===== src/Sidecar/Tests.antt =====
-- The directory of a server on its usual port.
use telefacet.Shared.{◌≡◌, refl, false, codes, ◌++◌, ◌∷◌}
use telefacet.Messages.{is_empty_text}
use telefacet.Sidecar.{server_dir_name}
use telefacet.Sidecar.Names.{IsPlain, server_dir_name_lem}

server_dir_name_lem_example :
    IsPlain (server_dir_name (codes "wss://a b/c"))
    × ((is_empty_text (server_dir_name (codes "wss://a b/c")) ≡ false)
        × (server_dir_name (codes "ws://" ++ (codes "pi-1" ++ (b':' ∷ codes "9001")))
            ≡ codes "pi-1" ++ (b'_' ∷ codes "9001")))
server_dir_name_lem_example =
    server_dir_name_lem (codes "wss://a b/c") (codes "pi-1") (codes "9001")
      (refl, (refl, (refl, (refl, tt)))) (refl, (refl, (refl, (refl, tt))))
