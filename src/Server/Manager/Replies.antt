-- ===== src/Server/Manager/Replies.antt =====
-- What a reply says: the answer of the target's own device, or its own config string.
use vo_e.Common.{
  ℕ, ◌≡◌, sym, ap, ◌∙◌, arith, ◌↔◌, ◌⊎◌, inl, inr, true, Bool-cases, bytes_eq, bytes_eq_iff, Bytes,
  take, drop, take-append-drop, length, some, Option-cases, ◌++◌, Outcome, ok, err, map_err,
  map_err-eq-ok, ok_inj, >>=-eq-ok,
}
use vo_e.Protocol.Types.{
  AoeFrame, AoeCommand, ata, config, AoePayload, ata_payload, config_payload, ConfigHeader,
  ConfigCommand, read, test_exact, test_prefix, set, force_set, config_command,
  max_sectors_standard,
}
use vo_e.Protocol.Build.{ResponseData, ata_response, config_response}
use vo_e.Storage.{BlockStorage}
use vo_e.Ata.{handle_ata_command}
use vo_e.Server.{AoeError, unrecognized_command}
use vo_e.Server.Target.{
  TargetAddr, Target, TargetManager, find, address_matches, handle_config, run_config,
}
use vo_e.Server.Manager.{handle_ata, handle_target_frame}

-- The frame's shelf is the target's or stands for all, and so is its slot.
abbrev pub IsAddressed : AoeFrame → TargetAddr → Type 0
IsAddressed frame a =
    ((frame.header.shelf ≡ a.shelf) ⊎ (frame.header.shelf ≡ 65535))
    × ((frame.header.slot ≡ a.slot) ⊎ (frame.header.slot ≡ 255))

pub address_matches_iff :
    (frame : AoeFrame) (a : TargetAddr) → (address_matches frame a ≡ true) ↔ IsAddressed frame a
unfolding address_matches
address_matches_iff frame a = ground arith

-- The config commands that a target answers, with their condition.
abbrev pub IsAsked : ConfigCommand → Bytes → Bytes → Type 0
IsAsked read asked own = Unit
IsAsked test_exact asked own = asked ≡ own
IsAsked test_prefix asked own = (rest : Bytes) × (own ≡ asked ++ rest)
IsAsked set asked own = ⊥
IsAsked force_set asked own = ⊥

module _ {S : Type 0} (device : BlockStorage S) where
  -- The reply of a target to a command with its payload, from a table of a firmware version.
  abbrev pub IsReply : AoeCommand → AoePayload → ℕ → Target S → ResponseData → Type 0
  IsReply ata (ata_payload header contents) version target r =
      r ≡ ata_response (handle_ata_command device header contents target.storage).0
  IsReply ata (config_payload header) version target r = ⊥
  IsReply config (ata_payload header contents) version target r = ⊥
  IsReply config (config_payload header) version target r =
      (r
        ≡ config_response (record {
          buffer_count = 16;
          firmware_version = version;
          sector_count = max_sectors_standard;
          config_string = target.config_string;
        }))
      × ((c : ConfigCommand) × (config_command header ≡ ok c)
          × IsAsked c header.config_string target.config_string)

  -- The reply of the target that stands at an address.
  abbrev pub RepliesAt : AoeFrame → TargetManager S → TargetAddr → ResponseData → Type 0
  RepliesAt frame m a r =
      (target : Target S) × (find a m.targets ≡ some target)
      × IsReply frame.header.command frame.payload m.firmware_version target r

  run_config-IsReply :
      (target : Target S) (version : ℕ) (header : ConfigHeader) (c : ConfigCommand)
      (r : ResponseData)
      → config_command header ≡ ok c
      → run_config target version header c ≡ ok r
      → IsReply config (config_payload header) version target r
  unfolding run_config
  run_config-IsReply target version header read r known h = (sym (ok_inj h), (read, known, tt))
  run_config-IsReply target version header test_exact r known h =
      elim (Bool-cases (bytes_eq header.config_string target.config_string)) [
        | inl e ↦ (
          sym (ok_inj (rw e at h)),
          (test_exact, known, (bytes_eq_iff header.config_string target.config_string).0 e),
        )
        | inr e ↦
            absurd
              (let bad : ◌≡◌ {A = Outcome AoeError ResponseData} (err _) (ok r) = rw e at h in cc)
      ]
  run_config-IsReply target version header test_prefix r known h =
      let own = target.config_string in
      let asked = header.config_string in
      elim (Bool-cases (bytes_eq (take (length asked) own) asked)) [
        | inl e ↦ (
          sym (ok_inj (rw e at h)),
          (
            test_prefix,
            known,
            (
              drop (length asked) own,
              sym (take-append-drop (length asked) own)
                  ∙ ap (λ x. x ++ drop (length asked) own)
                      ((bytes_eq_iff (take (length asked) own) asked).0 e),
            ),
          ),
        )
        | inr e ↦
            absurd
              (let bad : ◌≡◌ {A = Outcome AoeError ResponseData} (err _) (ok r) = rw e at h in cc)
      ]
  run_config-IsReply target version header set r known h = absurd cc
  run_config-IsReply target version header force_set r known h = absurd cc

  handle_ata-IsReply :
      (frame : AoeFrame) (p : AoePayload) (a : TargetAddr) (m : TargetManager S) (r : ResponseData)
      → (handle_ata device (record frame { payload = p }) a m).0 ≡ ok r
      → (target : Target S) × (find a m.targets ≡ some target)
        × IsReply ata p m.firmware_version target r
  unfolding handle_ata
  handle_ata-IsReply frame (config_payload header) a m r h =
      elim (Option-cases (find a m.targets)) [
        | inl e ↦
            absurd
              (let bad : ◌≡◌ {A = Outcome AoeError ResponseData} (err _) (ok r) = rw e at h in cc)
        | inr (t, e) ↦
            absurd
              (let bad : ◌≡◌ {A = Outcome AoeError ResponseData} (err _) (ok r) = rw e at h in cc)
      ]
  handle_ata-IsReply frame (ata_payload header contents) a m r h =
      elim (Option-cases (find a m.targets)) [
        | inl e ↦
            absurd
              (let bad : ◌≡◌ {A = Outcome AoeError ResponseData} (err _) (ok r) = rw e at h in cc)
        | inr (t, e) ↦ (t, e, sym (ok_inj (rw e at h)))
      ]

  handle_config-IsReply :
      (frame : AoeFrame) (p : AoePayload) (a : TargetAddr) (m : TargetManager S) (r : ResponseData)
      → handle_config (record frame { payload = p }) a m ≡ ok r
      → (target : Target S) × (find a m.targets ≡ some target)
        × IsReply config p m.firmware_version target r
  unfolding handle_config
  handle_config-IsReply frame (ata_payload header contents) a m r h =
      elim (Option-cases (find a m.targets)) [
        | inl e ↦
            absurd
              (let bad : ◌≡◌ {A = Outcome AoeError ResponseData} (err _) (ok r) = rw e at h in cc)
        | inr (t, e) ↦
            absurd
              (let bad : ◌≡◌ {A = Outcome AoeError ResponseData} (err _) (ok r) = rw e at h in cc)
      ]
  handle_config-IsReply frame (config_payload header) a m r h =
      elim (Option-cases (find a m.targets)) [
        | inl e ↦
            absurd
              (let bad : ◌≡◌ {A = Outcome AoeError ResponseData} (err _) (ok r) = rw e at h in cc)
        | inr (t, e) ↦
            let (c, known, ran) =
              >>=-eq-ok (map_err unrecognized_command (config_command header))
                (run_config t m.firmware_version header) (rw e at h) in
            (
              t,
              e,
              run_config-IsReply t m.firmware_version header c r
                  (map_err-eq-ok unrecognized_command (config_command header) known) ran,
            )
      ]

  -- A target that answers gives its own reply.
  pub handle_target_frame-RepliesAt :
      (frame : AoeFrame) (a : TargetAddr) (m : TargetManager S) (r : ResponseData)
      → (handle_target_frame device frame a m).0 ≡ ok r
      → RepliesAt frame m a r
  unfolding handle_target_frame
  handle_target_frame-RepliesAt frame a m r h = go frame.header.command h
    where
      go :
          (c : AoeCommand)
          → (handle_target_frame device
              (record frame { header = record frame.header { command = c } })
              a
              m).0
            ≡ ok r
          → (target : Target S) × (find a m.targets ≡ some target)
            × IsReply c frame.payload m.firmware_version target r
      go ata h =
          handle_ata-IsReply (record frame { header = record frame.header { command = ata } })
            frame.payload a m r h
      go config h =
          handle_config-IsReply (record frame { header = record frame.header { command = config } })
            frame.payload a m r h
