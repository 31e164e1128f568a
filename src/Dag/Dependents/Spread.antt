-- ===== src/Dag/Dependents/Spread.antt =====
-- The inner loop of the search for dependents.
use nexolith.Base.{
  ◌+◌, String, List, [], ◌∷◌, not, ◌||◌, ◌&&◌, length, contains, ◌≡◌, inl, inr, arith, eq_iff,
  Nodup, Bool-cases,
}
use nexolith.Dag.Dependents.{spread}

-- What the inner loop does to both lists.
pub record Spread (failed ns to_skip queue : List String) (r : List String × List String)
    : Type 0 where
  pub counts : length r.1 + length to_skip ≡ length queue + length r.0
  pub skips :
      (n : String)
      → contains r.0 n ≡ contains to_skip n || (contains ns n && not (contains failed n))
  pub queued :
      (n : String)
      → contains r.1 n ≡ contains queue n || (contains r.0 n && not (contains to_skip n))
  pub distinct : Nodup to_skip → Nodup r.0

pub spread-Spread :
    (failed ns to_skip queue : List String)
    → Spread failed ns to_skip queue (spread failed ns to_skip queue)
unfolding spread
spread-Spread failed [] to_skip queue = record {
  counts = omega arith;
  skips = λ n. ground arith;
  queued = λ n. ground arith;
  distinct = λ d. d;
}
spread-Spread failed (x ∷ ns) to_skip queue =
    elim (Bool-cases (not (contains to_skip x) && not (contains failed x))) [
      | inl e ↦ rw e (
          let r = spread-Spread failed ns (x ∷ to_skip) (x ∷ queue) in
          record {
            counts = omega (arith, r.counts);
            skips = λ n. ground (arith, e, r.skips n, eq_iff x n);
            queued = λ n. ground (arith, e, r.queued n, r.skips n, eq_iff x n);
            distinct = λ d. r.distinct (ground (arith, e), d);
          })
      | inr e ↦ rw e (
          let r = spread-Spread failed ns to_skip queue in
          record {
            counts = r.counts;
            skips = λ n. ground (arith, e, r.skips n, eq_iff x n);
            queued = r.queued;
            distinct = r.distinct;
          })
    ]
