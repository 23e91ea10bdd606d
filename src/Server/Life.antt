-- ===== src/Server/Life.antt =====
-- src/server.cpp: the operations on the stream of one call, in order.
pub mod Order
pub mod Steps
pub mod Asked
pub mod Terminal
pub mod Ending
use rgrpc.Convert.{Bytes, MdPairs}
use rgrpc.Prelude.{
  if_rule, ℕ, ◌+◌, ℤ, inc, dec, Bool, true, false, not, ◌&&◌, ◌||◌, ◌≡◌, ◌≢◌, refl, sym, ap, ◌∙◌,
  List, [], ◌∷◌, ◌++◌, arith, if◌then◌else◌, is_empty, pop_front, front, push_back, append-nil,
  append_assoc, length, leb, is_empty-push_back,
}
use rgrpc.Server.Types.{Svop, SvStreamOp, SvCall, SvFilled}
use rgrpc.Server.Call.{CallLocked, enter, pump_locked, terminal_of}

-- The messages handed to `Write`, oldest first.
abbrev pub sv_written : List SvStreamOp → List Bytes
sv_written [] = []
sv_written (SvStreamOp.write b ∷ ops) = b ∷ sv_written ops
sv_written (SvStreamOp.read ∷ ops) = sv_written ops
sv_written (SvStreamOp.write_and_finish b status ∷ ops) = sv_written ops
sv_written (SvStreamOp.finish status ∷ ops) = sv_written ops

-- How many terminal operations there are.
abbrev pub terminals : List SvStreamOp → ℕ
terminals [] = 0
terminals (SvStreamOp.write b ∷ ops) = terminals ops
terminals (SvStreamOp.read ∷ ops) = terminals ops
terminals (SvStreamOp.write_and_finish b status ∷ ops) = 1 + terminals ops
terminals (SvStreamOp.finish status ∷ ops) = 1 + terminals ops

pub sv_written-append :
    (xs ys : List SvStreamOp) → sv_written (xs ++ ys) ≡ sv_written xs ++ sv_written ys
sv_written-append [] ys = refl
sv_written-append (SvStreamOp.write b ∷ xs) ys = ap (◌∷◌ b) (sv_written-append xs ys)
sv_written-append (SvStreamOp.read ∷ xs) ys = sv_written-append xs ys
sv_written-append (SvStreamOp.write_and_finish b t ∷ xs) ys = sv_written-append xs ys
sv_written-append (SvStreamOp.finish t ∷ xs) ys = sv_written-append xs ys

pub terminals-append :
    (xs ys : List SvStreamOp) → terminals (xs ++ ys) ≡ terminals xs + terminals ys
terminals-append [] ys = omega arith
terminals-append (SvStreamOp.write b ∷ xs) ys = terminals-append xs ys
terminals-append (SvStreamOp.read ∷ xs) ys = terminals-append xs ys
terminals-append (SvStreamOp.write_and_finish b t ∷ xs) ys = omega (arith, terminals-append xs ys)
terminals-append (SvStreamOp.finish t ∷ xs) ys = omega (arith, terminals-append xs ys)

-- The messages in the queue that have not been handed over.
abbrev pub sv_unsent : SvCall → List Bytes
sv_unsent c = if c.write_inflight then pop_front c.write_queue else c.write_queue

-- How far the flags of a call go together.
pub record IsKept (c : SvCall) : Type 0 where
  pub slot :
      c.id ≡ 0
      → (c.delivered ≡ false)
        × (c.finish_posted ≡ false)
        × (c.read_inflight ≡ false)
        × (c.write_inflight ≡ false)
        × (is_empty c.write_queue ≡ true)
  pub answered : c.replied ≡ true → c.delivered ≡ true
  pub nonempty : c.write_inflight ≡ true → is_empty c.write_queue ≡ false
  pub last :
      c.finish_posted ≡ true
      → (c.write_inflight ≡ false) × (is_empty c.write_queue ≡ true) × (c.replied ≡ true)

-- `accepted` are the messages that sends have accepted; `aborted`, whether a finish without drain was.
pub record IsOrdered (accepted : List Bytes) (aborted : Bool) (c : SvCall) : Type 0 where
  pub kept : IsKept c
  pub prefix : (rest : List Bytes) × (accepted ≡ sv_written c.stream ++ rest)
  pub sent : c.dead ≡ false → aborted ≡ false → accepted ≡ sv_written c.stream ++ sv_unsent c
  pub cut : c.dead ≡ false → aborted ≡ true → sv_unsent c ≡ []
  pub ending : aborted ≡ true → c.replied ≡ true
  pub unfinished : c.finish_posted ≡ false → terminals c.stream ≡ 0
  pub finished :
      c.finish_posted ≡ true
      → (pre : List SvStreamOp) × (c.stream ≡ push_back pre (terminal_of c))
        × (terminals pre ≡ 0)
        × (aborted ≡ false → accepted ≡ sv_written pre)
