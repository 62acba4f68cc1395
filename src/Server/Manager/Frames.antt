-- ===== src/Server/Manager/Frames.antt =====
-- A frame and the targets: who answers, and which devices it reaches.
use vo_e.Common.{
  ◌≡◌, ◌≢◌, refl, ap, ◌∙◌, subst, ◌⊎◌, inl, inr, some, Option-cases, List, [], ◌∷◌, All,
  Outcome-cases,
}
use vo_e.Common.Io.{and_then-map_state}
use vo_e.Protocol.Types.{AoeFrame, AoeCommand, AoePayload, ata_payload, config_payload, ata, config}
use vo_e.Storage.{BlockStorage}
use vo_e.Ata.{handle_ata_command}
use vo_e.Ata.Access.{Access, untouched, handle_ata_command-Access}
use vo_e.Server.Target.{TargetAddr, Target, TargetManager, find, replace, keys}
use vo_e.Server.Target.Table.{find-replace_self, find-replace_other, keys-replace}
use vo_e.Server.Manager.{handle_ata, handle_target_frame, answer_all}

module _ {S : Type 0} (device : BlockStorage S) where
  -- The target at `b` has its config string, and its device had one call at most.
  abbrev pub Reached : TargetAddr → TargetManager S → TargetManager S → Type 0
  Reached b m n =
      (t : Target S)
      → find b m.targets ≡ some t
      → (u : Target S) × (find b n.targets ≡ some u)
        × (u.config_string ≡ t.config_string)
        × Access device t.storage u.storage

  abbrev pub Same : TargetAddr → TargetManager S → TargetManager S → Type 0
  Same b m n = find b n.targets ≡ find b m.targets

  pub Same-Reached : (b : TargetAddr) (m n : TargetManager S) → Same b m n → Reached b m n
  Same-Reached b m n same t h = (t, same ∙ h, refl, untouched refl)

  pub Same-trans-Reached :
      (b : TargetAddr) (m n o : TargetManager S) → Reached b m n → Same b n o → Reached b m o
  Same-trans-Reached b m n o reached same t h =
      let (u, found, text, access) = reached t h in (u, same ∙ found, text, access)

  -- What a frame does at one address.
  pub record At (a : TargetAddr) (m n : TargetManager S) : Type 0 where
    pub keys_kept : keys n.targets ≡ keys m.targets
    pub version_kept : n.firmware_version ≡ m.firmware_version
    pub others_kept : (b : TargetAddr) → b ≢ a → Same b m n
    pub reached : Reached a m n

  pub At-refl : (a : TargetAddr) (m : TargetManager S) → At a m m
  At-refl a m = record {
    keys_kept = refl;
    version_kept = refl;
    others_kept = λ b h. refl;
    reached = Same-Reached a m m refl;
  }

  -- A device's call, its new state put in the old one's place.
  replaced-At :
      (a : TargetAddr) (m : TargetManager S) (t : Target S) (storage : S)
      → find a m.targets ≡ some t
      → Access device t.storage storage
      → At a m (record m { targets = replace a (record t { storage = storage }) m.targets })
  replaced-At a m t storage e access =
      let u = record t { storage = storage } in
      record {
        keys_kept = keys-replace a u m.targets e;
        version_kept = refl;
        others_kept = λ b h. find-replace_other a u b m.targets h;
        reached = λ t' h.
            let same : t ≡ t' = cc (e, h) in
            (
              u,
              find-replace_self a u m.targets,
              ap (λ (x : Target S). x.config_string) same,
              subst (λ (x : Target S). Access device x.storage storage) same access,
            );
      }

  handle_ata-At :
      (frame : AoeFrame) (a : TargetAddr) (m : TargetManager S)
      → At a m (handle_ata device frame a m).1
  unfolding handle_ata
  handle_ata-At frame a m = go frame.payload
    where
      go : (p : AoePayload) → At a m (handle_ata device (record frame { payload = p }) a m).1
      go (config_payload c) = elim (Option-cases (find a m.targets)) [
        | inl e ↦ rw e (At-refl a m)
        | inr (t, e) ↦ rw e (At-refl a m)
      ]
      go (ata_payload header contents) = elim (Option-cases (find a m.targets)) [
        | inl e ↦ rw e (At-refl a m)
        | inr (t, e) ↦ rw e (
            replaced-At a m t (handle_ata_command device header contents t.storage).1 e
              (handle_ata_command-Access device header contents t.storage))
      ]

  pub handle_target_frame-At :
      (frame : AoeFrame) (a : TargetAddr) (m : TargetManager S)
      → At a m (handle_target_frame device frame a m).1
  unfolding handle_target_frame
  handle_target_frame-At frame a m = go frame.header.command
    where
      go :
          (c : AoeCommand)
          → At a m
              (handle_target_frame device
                (record frame { header = record frame.header { command = c } })
                a
                m).1
      go ata = handle_ata-At (record frame { header = record frame.header { command = ata } }) a m
      go config = At-refl a m

  -- After the first address, the others are served or not.
  pub answer_all-cases :
      (frame : AoeFrame) (a : TargetAddr) (rest : List TargetAddr) (m : TargetManager S)
      → let first = (handle_target_frame device frame a m).1 in
        ((answer_all device frame (a ∷ rest) m).1 ≡ first)
        ⊎ ((answer_all device frame (a ∷ rest) m).1 ≡ (answer_all device frame rest first).1)
  unfolding answer_all
  answer_all-cases frame a rest m = elim (Outcome-cases (handle_target_frame device frame a m).0) [
    | inl (response, e) ↦ inr (
        rw e (
          and_then-map_state
            (answer_all device frame rest (handle_target_frame device frame a m).1).0
            (λ responses. (a, response) ∷ responses)
            (answer_all device frame rest (handle_target_frame device frame a m).1).1))
    | inr (k, e) ↦ inl (rw e refl)
  ]

  pub answer_all-kept :
      (frame : AoeFrame) (as' : List TargetAddr) (m : TargetManager S)
      → let n = (answer_all device frame as' m).1 in
        (keys n.targets ≡ keys m.targets)
        × (n.firmware_version ≡ m.firmware_version)
        × ((b : TargetAddr) → All (λ a. b ≢ a) as' → Same b m n)
  unfolding answer_all
  answer_all-kept frame [] m = (refl, refl, λ b h. refl)
  answer_all-kept frame (a ∷ rest) m =
      let first = (handle_target_frame device frame a m).1 in
      let at = handle_target_frame-At frame a m in
      let (keys_rest, version_rest, others_rest) = answer_all-kept frame rest first in
      elim (answer_all-cases frame a rest m) [
        | inl e ↦ rw e (at.keys_kept, at.version_kept, λ b (h, _). at.others_kept b h)
        | inr e ↦ rw e (
          keys_rest ∙ at.keys_kept,
          version_rest ∙ at.version_kept,
          λ b (h, hs). others_rest b hs ∙ at.others_kept b h,
        )
      ]
