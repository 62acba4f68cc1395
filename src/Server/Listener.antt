-- ===== src/Server/Listener.antt =====
-- src/server/listener.rs: a packet from the network, and the frames that answer it. The network
-- card is no part of the repository: `send_to` is what a send does to it, and its result is only
-- logged.
pub mod Echo
use vo_e.Common.{
  Bytes, true, if◌then◌else◌, ◌==◌, ◌≡◌, refl, not, ltb, length, from_be16, List, [], ◌∷◌, Outcome,
  ok, err, ◌⊎◌, inl, inr, Bool-cases,
}
use vo_e.Protocol.Types.{AoeFrame, aoe_ethertype}
use vo_e.Protocol.Parse.{ParseError, parse_frame, byte_at}
use vo_e.Protocol.Build.{ResponseData, build_response}
use vo_e.Storage.{BlockStorage}
use vo_e.Server.{AoeError, parse}
use vo_e.Server.Target.{TargetAddr, TargetManager}
use vo_e.Server.Manager.{handle_frame}

-- The frames that answer a request, in the order of the responses.
abbrev pub replies : AoeFrame → List (TargetAddr × ResponseData) → List Bytes
replies frame [] = []
replies frame ((addr, response) ∷ rest) =
    build_response frame response addr.shelf addr.slot ∷ replies frame rest

module _ {S T : Type 0} (device : BlockStorage S) (send_to : Bytes → T → T) where
  abbrev pub send_all : List Bytes → T → T
  send_all [] tx = tx
  send_all (frame ∷ rest) tx = send_all rest (send_to frame tx)

  unfoldable pub handle_request :
      AoeFrame → TargetManager S × T → Outcome AoeError (Unit {0}) × (TargetManager S × T)
  handle_request frame (targets, tx) = go (handle_frame device frame targets)
    where
      go :
          Outcome AoeError (List (TargetAddr × ResponseData)) × TargetManager S
          → Outcome AoeError (Unit {0}) × (TargetManager S × T)
      go (ok responses, targets') = (ok tt, (targets', send_all (replies frame responses) tx))
      go (err e, targets') = (err e, (targets', tx))

  unfoldable pub handle_parsed :
      Outcome ParseError AoeFrame
      → TargetManager S × T
      → Outcome AoeError (Unit {0}) × (TargetManager S × T)
  unfolding handle_request
  handle_parsed (err e) s = (err (parse e), s)
  handle_parsed (ok frame) s =
      if frame.header.flags.response then (ok tt, s) else handle_request frame s

  unfoldable pub handle_packet :
      Bytes → TargetManager S × T → Outcome AoeError (Unit {0}) × (TargetManager S × T)
  unfolding handle_parsed
  handle_packet packet s =
      if ltb (length packet) 14
      then (ok tt, s)
      else if not (from_be16 (byte_at packet 12) (byte_at packet 13) == aoe_ethertype)
      then (ok tt, s)
      else handle_parsed (parse_frame packet) s

  handle_parsed-ignores :
      (r : Outcome ParseError AoeFrame) (s : TargetManager S × T)
      → ((e : ParseError) × (r ≡ err e))
        ⊎ ((f : AoeFrame) × (r ≡ ok f) × (f.header.flags.response ≡ true))
      → (handle_parsed r s).1 ≡ s
  unfolding handle_parsed
  handle_parsed-ignores r s (inl (e, refused)) = rw refused refl
  handle_parsed-ignores r s (inr (f, parsed, response)) = rw (parsed, response) refl

  -- A packet that the parser refuses, and a response, change no device and send nothing.
  pub handle_packet-ignores :
      (packet : Bytes) (s : TargetManager S × T)
      → ((e : ParseError) × (parse_frame packet ≡ err e))
        ⊎ ((f : AoeFrame) × (parse_frame packet ≡ ok f) × (f.header.flags.response ≡ true))
      → (handle_packet packet s).1 ≡ s
  unfolding handle_packet
  handle_packet-ignores packet s h = elim (Bool-cases (ltb (length packet) 14)) [
    | inl short ↦ rw short refl
    | inr long ↦
        elim (Bool-cases
          (not (from_be16 (byte_at packet 12) (byte_at packet 13) == aoe_ethertype))) [
            | inl foreign ↦ rw (long, foreign) refl
            | inr aoe ↦ rw (long, aoe) (handle_parsed-ignores (parse_frame packet) s h)
          ]
  ]
