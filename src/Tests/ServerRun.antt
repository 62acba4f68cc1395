-- ===== src/Tests/ServerRun.antt =====
-- Two targets in one table, and the frames that reach them.
use vo_e.Common.{
  ℕ, ◌≡◌, ◌≢◌, refl, ap, arith, true, Bytes, List, [], ◌∷◌, map, All, ◌↔◌, ok, inr, err, inl,
}
use vo_e.Protocol.Types.{
  ConfigHeader, config_payload, config_command, test_exact, AoeFrame, ata_command, lba48,
}
use vo_e.Protocol.Build.{ResponseData, ata_response}
use vo_e.Storage.File.{FileBackend}
use vo_e.Ata.{handle_ata_command, run_command, handle_read, request_start, request_count, error}
use vo_e.Server.{device_unavailable}
use vo_e.Server.Target.{TargetAddr, Target, TargetManager, keys, filter, address_matches}
use vo_e.Server.Manager.{handle_ata, handle_target_frame, answer_all, handle_frame}
use vo_e.Server.Manager.Replies.{IsAddressed, RepliesAt}
use vo_e.Server.Manager.Frames.{Reached}
use vo_e.Server.Manager.Answers.{Distinct, handle_frame-answers_matching, handle_frame-Reached}
use vo_e.Server.Manager.Drops.{Has, handle_frame-drops}
use vo_e.Tests.ProtocolRun.{read_request, config_request}
use vo_e.Tests.DeviceRun.{MemoryFile, blank, device}

abbrev addr : ℕ → TargetAddr
addr slot = record { shelf = 5; slot = slot }

abbrev target : Target (FileBackend MemoryFile)
target = record { storage = blank; config_string = 104 ∷ 105 ∷ [] }

abbrev manager : TargetManager (FileBackend MemoryFile)
manager = record { targets = (addr 1, target) ∷ (addr 2, target) ∷ []; firmware_version = 0x4019 }

-- Sector 300 of a device of 3: the answer is IDNF.
abbrev answers : List (TargetAddr × ResponseData)
answers = (addr 2, ata_response (error 0x10)) ∷ []

answered : (handle_frame device read_request manager).0 ≡ ok answers
unfolding handle_frame answer_all handle_target_frame handle_ata handle_ata_command run_command
    handle_read request_start request_count ata_command lba48 address_matches
answered = refl

slots-ne : addr 2 ≢ addr 1
slots-ne e = let h : ◌≡◌ {A = ℕ} 2 1 = ap (λ (a : TargetAddr). a.slot) e in omega (arith, h)

manager-Distinct : Distinct (keys manager.targets)
manager-Distinct = ((slots-ne, tt), (tt, tt))

handle_frame-answers_matching_example :
    (map (λ (r : TargetAddr × ResponseData). r.0) answers
      ≡ filter (address_matches read_request) (keys manager.targets))
    × ((a : TargetAddr) → (address_matches read_request a ≡ true) ↔ IsAddressed read_request a)
    × All (λ (r : TargetAddr × ResponseData). RepliesAt device read_request manager r.0 r.1) answers
handle_frame-answers_matching_example =
    handle_frame-answers_matching device read_request manager answers manager-Distinct answered

handle_frame-Reached_example :
    Reached device (addr 2) manager (handle_frame device read_request manager).1
handle_frame-Reached_example =
    (handle_frame-Reached device read_request manager manager-Distinct).3 (addr 2)

abbrev log : Bytes → List Bytes → List Bytes
log frame frames = frame ∷ frames

-- A broadcast that asks for the config string of the first target alone.
abbrev asked : ConfigHeader
asked = record {
  buffer_count = 0;
  firmware_version = 0;
  sector_count = 0;
  aoe_ccmd = 1;
  config_len = 2;
  config_string = 104 ∷ 105 ∷ [];
}

abbrev broadcast : AoeFrame
broadcast = record (config_request (config_payload asked)) {
  header = record (config_request (config_payload asked)).header { shelf = 0xffff; slot = 0xff };
}

abbrev another : Target (FileBackend MemoryFile)
another = record { storage = blank; config_string = 120 ∷ [] }

abbrev mixed : TargetManager (FileBackend MemoryFile)
mixed = record { targets = (addr 1, target) ∷ (addr 2, another) ∷ []; firmware_version = 0x4019 }

asks_exactly : config_command asked ≡ ok test_exact
unfolding config_command
asks_exactly = refl

both_addressed : Has (addr 2) (filter (address_matches broadcast) (keys mixed.targets))
unfolding address_matches
both_addressed = inr (inl refl)

handle_frame-drops_example : (handle_frame device broadcast mixed).0 ≡ err device_unavailable
handle_frame-drops_example =
    handle_frame-drops device broadcast asked mixed refl refl asks_exactly (addr 2) another
      both_addressed refl refl
