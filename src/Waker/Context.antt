-- ===== src/Waker/Context.antt =====
-- `Selected` and `Context`. A context is shared by the entries that name it, so contexts live in a
-- store and go by their place in it.
use crossbeam.Prelude.{
  ℕ, zero, suc, true, false, Option, none, some, List, [], ◌∷◌, if◌then◌else◌, ◌==◌, ltb,
}

-- `Selected`; an operation is the address that `Operation::hook` made it of.
pub data Selected : Type 0 where
  waiting : Selected
  aborted : Selected
  disconnected : Selected
  operation : ℕ → Selected

-- `From<usize> for Selected`
unfoldable pub decode : ℕ → Selected
decode zero = waiting
decode (suc zero) = aborted
decode (suc (suc zero)) = disconnected
decode (suc (suc (suc n))) = operation (suc (suc (suc n)))

-- `From<Selected> for usize`
unfoldable pub encode : Selected → ℕ
encode waiting = 0
encode aborted = 1
encode disconnected = 2
encode (operation val) = val

-- `Operation::hook`: `none` is the failed assertion that the address is above 2.
unfoldable pub hook : ℕ → Option Selected
hook val = if ltb 2 val then some (operation val) else none

-- `Inner` of a context; a packet of 0 is null.
pub record Cell : Type 0 where
  pub select : ℕ
  pub packet : ℕ
  pub thread_id : ℕ

-- The contexts of all threads, and the threads that were unparked, last first.
pub record World : Type 0 where
  pub cells : ℕ → Cell
  pub unparked : List ℕ

abbrev pub put : World → ℕ → Cell → World
put w cx c = record w { cells = λ i. if cx == i then c else w.cells i }

-- `Context::new` on a thread
abbrev pub new_cell : ℕ → Cell
new_cell thread = record { select = 0; packet = 0; thread_id = thread }

-- `Context::reset`
unfoldable pub reset : World → ℕ → World
unfolding encode
reset w cx = put w cx (record (w.cells cx) { select = encode waiting; packet = 0 })

-- `Context::try_select`: whether the exchange of `Waiting` succeeds, else what was selected before.
pub data Tried : Type 0 where
  won : Tried
  lost : Selected → Tried

unfoldable pub try_select : World → ℕ → Selected → Tried × World
unfolding encode
try_select w cx sel =
    if (w.cells cx).select == encode waiting
    then (won, put w cx (record (w.cells cx) { select = encode sel }))
    else (lost (decode (w.cells cx).select), w)

unfoldable pub selected : World → ℕ → Selected
selected w cx = decode (w.cells cx).select

-- A null packet is not stored.
unfoldable pub store_packet : World → ℕ → ℕ → World
store_packet w cx packet =
    if packet == 0 then w else put w cx (record (w.cells cx) { packet = packet })

unfoldable pub unpark : World → ℕ → World
unpark w cx = record w { unparked = (w.cells cx).thread_id ∷ w.unparked }

unfoldable pub thread_id : World → ℕ → ℕ
thread_id w cx = (w.cells cx).thread_id

-- One turn of the loop of `wait_until`: what it reads in `select`, the time, and what stands in
-- `select` when it comes to abort. Between the turns the thread is parked.
pub record Turn : Type 0 where
  pub seen : ℕ
  pub now : ℕ
  pub at_abort : ℕ

-- The loop of `wait_until` over the turns that are taken; `none` is a thread that still waits.
unfoldable pub wait_until : Option ℕ → List Turn → Option Selected
wait_until deadline [] = none
wait_until none (t ∷ ts) =
    let rest = wait_until none ts in elim (decode t.seen) [ waiting ↦ rest | sel ↦ some sel ]
wait_until (some end) (t ∷ ts) =
    let rest = wait_until (some end) ts in
    elim (decode t.seen) [
      | waiting ↦ elim (ltb t.now end) [
        | true ↦ rest
        | false ↦ if t.at_abort == 0 then some aborted else some (decode t.at_abort)
      ]
      | sel ↦ some sel
    ]
