-- ===== src/Ready/Queue.antt =====
-- `ThreadReadyQueue` of src/kernel/threading_subsystem.hpp and .cpp.
pub mod Laws
use co_rtos.Base.{
  ℕ, zero, suc, Ptr, Option, none, some, Bool, true, false, not, ◌&&◌, ◌||◌, is_some, ptr_eq,
  assert, ◌>>=◌, ◌>>◌,
}
use co_rtos.Intrusive.{Links, Ends, is_enqueued, link_back, unlink_front, unlink}
use co_rtos.Threads.{Threads, is_ready}

abbrev pub empty : Ends → Bool
empty q = not (is_some q.head)

unfoldable pub has_peer : Ends → Bool
has_peer q = is_some q.head && not (ptr_eq q.head q.tail)

abbrev pub front : Ends → Ptr
front q = q.head

-- The walk of `size` from a node; `none` where the fuel does not reach the end of the list.
unfoldable pub size_from : ℕ → Links → Ptr → ℕ → Option ℕ
size_from fuel l none n = some n
size_from zero l (some a) n = none
size_from (suc fuel) l (some a) n = size_from fuel l (l.next a) (suc n)

unfoldable pub size : ℕ → Threads → Ends → Option ℕ
unfolding size_from
size fuel th q = size_from fuel th.links q.head 0

unfoldable pub push_back : Threads → Ends → ℕ → Option (Threads × Ends)
push_back th q t = do
  assert (not (is_enqueued th.links t))
  assert (is_ready (th.state t))
  let (l, q') = link_back th.links q t
  some (record th { links = l }, q')

abbrev pub pop_front_at : Ptr → Threads → Ends → Threads × Ends × Ptr
pop_front_at none th q = (th, q, none)
pop_front_at (some t) th q =
    let (l, q') = unlink_front th.links q t in (record th { links = l }, q', some t)

unfoldable pub pop_front : Threads → Ends → Threads × Ends × Ptr
pop_front th q = pop_front_at q.head th q

abbrev pub same_bool : Bool → Bool → Bool
same_bool true b = b
same_bool false b = not b

unfoldable pub remove : Threads → Ends → ℕ → Option (Threads × Ends)
remove th q t = do
  assert (ptr_eq (some t) q.head || is_some (th.links.prev t))
  assert (ptr_eq (some t) q.tail || is_some (th.links.next t))
  let (l, q') = unlink th.links q t
  assert (same_bool (is_some q'.head) (is_some q'.tail))
  some (record th { links = l }, q')
