-- ===== src/Dbal/ByteStream/DryRuns.antt =====
-- Dry runs and their guards.
use madlibport.Base.{ℕ, ◌+◌, ◌-◌, ◌≡◌, Bool, true, false, arith, ltb}
use madlibport.Base.Outcome.{Outcome, ok, ◌>>=◌}
use madlibport.Dbal.ByteStream.{
  Stream, StreamError, is_in_dry_run, enter_dry_run, leave_dry_run, guard_start, guard_leave,
  guard_end,
}

-- A stream with `n` dry runs entered.
abbrev pub nested : ℕ → Stream → Stream
nested n s = record { address = s.address; buf = s.buf; dry_run = n }

-- What `Body` does to a stream in a dry run, with the guard left in the body or not.
abbrev pub guarded : Bool → Stream → Outcome StreamError Stream
guarded explicit s = elim explicit [
  | true ↦ guard_leave (guard_start s) >>= guard_leave >>= guard_end
  | false ↦ guard_end (guard_start s)
]

-- A guard enters a dry run of the stream; whether it is left twice before its end or not at all, the
-- stream has in the end as many dry runs as before, and no error is thrown.
pub guarded_lem :
    (explicit : Bool) (s : Stream)
    → (is_in_dry_run (guard_start s).1 ≡ true) × (guarded explicit s ≡ ok s)
unfolding guard_start guard_leave guard_end enter_dry_run leave_dry_run
guarded_lem true s =
    let inside : ltb 0 (s.dry_run + 1) ≡ true = ground arith in
    let back : s.dry_run + 1 - 1 ≡ s.dry_run = omega arith in (inside, rw (inside, back))
guarded_lem false s =
    let inside : ltb 0 (s.dry_run + 1) ≡ true = ground arith in
    let back : s.dry_run + 1 - 1 ≡ s.dry_run = omega arith in (inside, rw (inside, back))
