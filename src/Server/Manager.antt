-- ===== src/Server/Manager.antt =====
-- src/server/target.rs: the answers of all targets that a frame addresses, each with its device.
pub mod Frames
pub mod Replies
pub mod Answers
pub mod Drops
use vo_e.Common.{ℕ, Bytes, Option, none, some, List, [], ◌∷◌, Outcome, ok, err}
use vo_e.Common.Io.{Io, pure, ◌>>=◌}
use vo_e.Protocol.Types.{AoeFrame, AoePayload, ata_payload, config_payload, ata, config}
use vo_e.Protocol.Build.{ResponseData, ata_response}
use vo_e.Storage.{BlockStorage}
use vo_e.Ata.{handle_ata_command}
use vo_e.Server.{AoeError, bad_argument, device_unavailable, expected_ata_payload}
use vo_e.Server.Target.{
  TargetAddr, Target, TargetManager, find, replace, keys, filter, address_matches, handle_config,
}

module _ {S : Type 0} (device : BlockStorage S) where
  -- The device is changed in its place in the map.
  unfoldable pub handle_ata : AoeFrame → TargetAddr → Io (TargetManager S) AoeError ResponseData
  handle_ata frame addr m = at (find addr m.targets) frame.payload
    where
      at : Option (Target S) → AoePayload → Outcome AoeError ResponseData × TargetManager S
      at none payload = (err device_unavailable, m)
      at (some target) (config_payload _) = (err (bad_argument expected_ata_payload), m)
      at (some target) (ata_payload header contents) =
          let (response, storage) = handle_ata_command device header contents target.storage in
          (
            ok (ata_response response),
            record m { targets = replace addr (record target { storage = storage }) m.targets },
          )

  unfoldable pub handle_target_frame :
      AoeFrame → TargetAddr → Io (TargetManager S) AoeError ResponseData
  unfolding handle_ata handle_config
  handle_target_frame frame addr m = elim frame.header.command [
    | ata ↦ handle_ata frame addr m
    | config ↦ (handle_config frame addr m, m)
  ]

  -- The loop over the matching addresses, with its `?`.
  unfoldable pub answer_all :
      AoeFrame → List TargetAddr → Io (TargetManager S) AoeError (List (TargetAddr × ResponseData))
  unfolding handle_target_frame
  answer_all frame [] = pure []
  answer_all frame (addr ∷ rest) = handle_target_frame frame addr >>= λ response.
      answer_all frame rest >>= λ responses. pure ((addr, response) ∷ responses)

  unfoldable pub handle_frame :
      AoeFrame → Io (TargetManager S) AoeError (List (TargetAddr × ResponseData))
  unfolding answer_all address_matches
  handle_frame frame m = answer_all frame (filter (address_matches frame) (keys m.targets)) m
