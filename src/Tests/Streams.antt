-- ===== src/Tests/Streams.antt =====
-- The two ends of a connection in memory: lists of bytes.
use vo_e.Common.{
  refl, arith, Bytes, if◌then◌else◌, ltb, ltb_of_le, lt→ltb, length, take, drop, ◌++◌, ok, err,
  unexpected_eof,
}
use vo_e.Common.Io.{pure}
use vo_e.Common.Stream.{Reader, Writer, ReaderLaws, WriterLaws}

abbrev pub source : Reader Bytes
source = record {
  read_exact =
      λ n r. if ltb (length r) n then (err unexpected_eof, r) else (ok (take n r), drop n r);
}

unfoldable pub source_laws : ReaderLaws source
source_laws = record {
  pending = λ r. r;
  read_exact_ok = λ n r h. rw (ltb_of_le (length r) n h) (refl, refl);
  read_exact_eof = λ n r h. rw (lt→ltb (length r) n h) (refl, omega arith);
}

abbrev pub sink : Writer Bytes
sink = record { write_all = λ d w. (ok tt, w ++ d); flush = pure tt }

unfoldable pub sink_laws : WriterLaws sink
sink_laws = record { written = λ w. w; write_all_ok = λ d w h. refl; flush_keeps = λ w. refl }
