-- ===== src/Broadcast/Tests.antt =====
-- Three servers, of which two are connected and one of these has the raw stream.
use telefacet.Shared.{ℕ, ◌==◌, true, false, not, List, [], ◌∷◌, none, some, pos, ◌≡◌, ◌++◌, refl}
use telefacet.Config.{ServerCfg, default_server}
use telefacet.Client.{StackRequest}
use telefacet.Broadcast.{Links, tell_from, trigger_capture_all, stack_capture_all}
use telefacet.Broadcast.Recipients.{logged, recipients_lem}
use telefacet.Commands.{Command}

-- The servers that were sent something; server 1 is not connected.
abbrev noted : Links ℕ (List ℕ)
noted = record {
  is_connected = λ i w. not (i == 1);
  in_progress = λ i w. false;
  send = λ i cmd w. (true, w ++ i ∷ []);
}

abbrev three : List ServerCfg
three = default_server ∷ default_server ∷ record default_server { raw = true } ∷ []

abbrev request : StackRequest
request = record {
  camera_id = some 4;
  num_frames = some (pos 8);
  exposure_time_us = none;
  analogue_gain = none;
  skip_frames = none;
  send_image = some true;
}

-- Server 1 is not connected, and server 0 takes no command.
recipients_lem_example :
    let links = logged (λ i. not (i == 1)) (λ i. i == 2) in
    let trigger : Command ℕ = Command.trigger_capture none (some (pos 2)) none in
    let stack : Command ℕ = Command.stack_capture (record request { camera_id = none }) in
    (trigger_capture_all links three (some (pos 2)) none []
      ≡ (2 ∷ [], (0, trigger) ∷ (2, trigger) ∷ []))
    × (stack_capture_all links three request [] ≡ (2 ∷ [], (2, stack) ∷ []))
recipients_lem_example =
    recipients_lem (λ i. not (i == 1)) (λ i. i == 2) three (some (pos 2)) none request []

both : (trigger_capture_all noted three (some (pos 2)) none []).0 ≡ 0 ∷ 2 ∷ []
unfolding trigger_capture_all tell_from
both = refl

raw_alone : (stack_capture_all noted three request []).0 ≡ 2 ∷ []
unfolding stack_capture_all tell_from
raw_alone = refl
