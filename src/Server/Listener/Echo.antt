-- ===== src/Server/Listener/Echo.antt =====
-- No answer is answered: the frames that a listener sends are responses, which every listener ignores.
use vo_e.Common.{◌≡◌, Bytes, true, false, List, All, ok, err}
use vo_e.Protocol.Types.{AoeFrame}
use vo_e.Protocol.Parse.{ParseError, parse_frame}
use vo_e.Protocol.Build.{ResponseData}
use vo_e.Storage.{BlockStorage}
use vo_e.Server.{AoeError}
use vo_e.Server.Target.{TargetAddr, TargetManager}
use vo_e.Server.Manager.{handle_frame}
use vo_e.Server.Listener.{replies, send_all, handle_packet}

module _ {S T : Type 0} (device : BlockStorage S) (send_to : Bytes → T → T) where
  -- A listener that gets these bytes stays as it is and sends nothing.
  abbrev pub IsIgnored : Bytes → Type 0
  IsIgnored packet = (s : TargetManager S × T) → (handle_packet device send_to packet s).1 ≡ s

  -- What a packet does to the targets and the network card.
  pub data Handling (packet : Bytes) (s u : TargetManager S × T) : Type 0 where
    refused : (e : ParseError) → parse_frame packet ≡ err e → u ≡ s → Handling packet s u
    ignored :
        (f : AoeFrame)
        → parse_frame packet ≡ ok f
        → f.header.flags.response ≡ true
        → u ≡ s
        → Handling packet s u
    unanswered :
        (f : AoeFrame) (e : AoeError)
        → parse_frame packet ≡ ok f
        → f.header.flags.response ≡ false
        → (handle_frame device f s.0).0 ≡ err e
        → u ≡ ((handle_frame device f s.0).1, s.1)
        → Handling packet s u
    answered :
        (f : AoeFrame) (rs : List (TargetAddr × ResponseData))
        → parse_frame packet ≡ ok f
        → f.header.flags.response ≡ false
        → (handle_frame device f s.0).0 ≡ ok rs
        → u ≡ ((handle_frame device f s.0).1, send_all device send_to (replies f rs) s.1)
        → All IsIgnored (replies f rs)
        → Handling packet s u
