-- ===== src/Evidence/Store/Limit.antt =====
-- A record of exactly the maximum size is written, and the log that holds it cannot be read.
use probavi.Base.{
  ℕ, ◌≡◌, refl, ap, ◌∙◌, true, false, none, [], ◌++◌, arith, all, leb, length, Bytes,
}
use probavi.Evidence.Canonical.Line.{printable}
use probavi.Evidence.Codes.{chain_state}
use probavi.Evidence.Result.{ok, fails}
use probavi.Evidence.Record.{Record}
use probavi.Evidence.Codec.{Codec}
use probavi.Evidence.Walk.{max_record_bytes, walk_lines, walk, lines, initial, meet_anchor}
use probavi.Evidence.Walk.Stops.{walk_lines_long}
use probavi.Evidence.Store.{
  Signer, Store, durable, newline, sealed, chained, is_chained, append, append_sealed, put_line,
  resume, resumed,
}
use probavi.Evidence.Store.Lines.{lines-snoc, close_torn_tail-closed}
use probavi.Evidence.Store.Sealed.{sealed-ok}
use probavi.Evidence.Store.History.{new_session}

walk-long :
    (c : Codec) (line : Bytes)
    → all printable line ≡ true
    → length line ≡ max_record_bytes
    → (walk c none none (line ++ newline)).failed ≡ true
unfolding walk meet_anchor lines
walk-long c line p n =
    ap (λ q. (walk_lines c (initial none none) 1 q.0 q.1).failed) (lines-snoc [] line refl p)
    ∙ walk_lines_long c (initial none none) 1 line [] [] (at_limit n)
  where
    at_limit : {m : ℕ} → m ≡ max_record_bytes → leb max_record_bytes m ≡ true
    at_limit h = ground arith

resume-long :
    (c : Codec) (line : Bytes)
    → all printable line ≡ true
    → length line ≡ max_record_bytes
    → resume c (line ++ newline) ≡ fails chain_state
unfolding resume resumed lines
resume-long c line p n =
    rw (close_torn_tail-closed (line ++ newline) (ap (λ q. q.1) (lines-snoc [] line refl p)))
      (rw (walk-long c line p n) refl)

append-durable :
    (c : Codec) (s : Signer) (st : Store) (rec signed : Record) (line : Bytes)
    → st.broken ≡ false
    → is_chained rec ≡ false
    → sealed c s (chained st rec) ≡ ok (signed, line)
    → append c s st rec durable ≡ put_line c st signed line durable
unfolding append append_sealed
append-durable c s st rec signed line b k q = rw (b, k) (rw q refl)

-- When the first record of a log seals to a line of exactly 65536 bytes, `Append` returns it without
-- an error, and the next `Open` refuses the log.
pub append-resume_limit :
    (c : Codec) (s : Signer) (rec signed : Record) (line : Bytes)
    → is_chained rec ≡ false
    → sealed c s (chained new_session.store rec) ≡ ok (signed, line)
    → length line ≡ max_record_bytes
    → ((append c s new_session.store rec durable).2 ≡ none)
      × (resume c (append c s new_session.store rec durable).0.file ≡ fails chain_state)
unfolding put_line
append-resume_limit c s rec signed line k q n =
    rw (append-durable c s new_session.store rec signed line refl k q)
      (refl, resume-long c line (sealed-ok c s _ signed line q).single n)
