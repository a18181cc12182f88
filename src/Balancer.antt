-- ===== src/Balancer.antt =====
-- src/balancer.rs: which event loop gets the next connection. A worker is given by its connection
-- count; the counter of `RoundRobin` is a `usize`, whose `fetch_add` wraps around.
pub mod Fairness
pub mod Least
mod Tests
use rnet.Prelude.{
  ℕ, zero, suc, ◌+◌, ◌%◌, ◌^◌, Bool, true, false, List, [], ◌∷◌, Option, none, some, ltb, leb,
  length, if◌then◌else◌,
}
use rnet.Io.{Run, ret, panic}
use rnet.Options.{LoadBalancing, round_robin, least_connections, source_addr_hash}

-- `Box<dyn LoadBalancer>`: the two policies that exist, `RoundRobin` with its `next`.
pub data Balancer : Type 0 where
  rotating : (next : ℕ) → Balancer
  least : Balancer

-- `todo!()` stands for the third policy.
unfoldable pub new : LoadBalancing → Run Balancer
new round_robin = ret (rotating 0)
new least_connections = ret least
new source_addr_hash = panic

-- `RoundRobin::select`.
unfoldable pub select_next : ℕ → List ℕ → ℕ × ℕ
select_next next [] = (0, next)
select_next next (w ∷ ws) = (next % length (w ∷ ws), (next + 1) % 2 ^ 64)

-- `min_by_key` over the enumerated workers behind the one at `best`, whose count is `count`: the
-- first of several least ones stays.
unfoldable pub min_by_key : (best count idx : ℕ) → List ℕ → ℕ
min_by_key best count idx [] = best
min_by_key best count idx (w ∷ ws) =
    let better = min_by_key idx w (idx + 1) ws in
    let same = min_by_key best count (idx + 1) ws in if ltb w count then better else same

-- `LeastConnections::select`.
unfoldable pub select_least : List ℕ → ℕ
unfolding min_by_key
select_least [] = 0
select_least (w ∷ ws) = min_by_key 0 w 1 ws

unfoldable pub select : Balancer → List ℕ → ℕ × Balancer
unfolding select_next select_least
select (rotating next) ws = let (idx, next') = select_next next ws in (idx, rotating next')
select least ws = (select_least ws, least)

-- As many selections, one after the other, over the same workers.
unfoldable pub select_times : ℕ → Balancer → List ℕ → List ℕ × Balancer
select_times zero b ws = ([], b)
select_times (suc times) b ws =
    let (idx, b') = select b ws in let (later, b'') = select_times times b' ws in (idx ∷ later, b'')
