-- ===== src/State/Attempts/Reactions.antt =====
-- What the store remembers of reactions to upstream runs.
use nexolith.Base.{
  ℕ, String, List, [], ◌∷◌, true, false, ◌&&◌, some, any, find, update_where, ◌==◌, string_eq,
  if◌then◌else◌, ◌≡◌, refl, arith, eq_iff, Bool-cases, inl, inr,
}
use nexolith.State.Store.{Reaction, StateStore}
use nexolith.State.Attempts.{
  is_reaction, upsert_reaction, run_of, get_last_reacted_upstream_run_id, record_trigger_reaction,
}

same_pair :
    (d u d' u' : String) (r : Reaction)
    → is_reaction d' u' r ≡ true
    → is_reaction d u r ≡ (d' == d && u' == u)
same_pair d u d' u' r h = ground (
  arith,
  eq_iff r.downstream d',
  eq_iff r.upstream u',
  eq_iff r.downstream d,
  eq_iff r.upstream u,
  eq_iff d' d,
  eq_iff u' u,
)

-- The reaction of the updated pair.
find-updated :
    (d u : String) (id : ℕ) (rows : List Reaction)
    → any (is_reaction d u) rows ≡ true
    → run_of (
        find
          (is_reaction d u)
          (update_where (is_reaction d u) (λ r. record r { last_reacted_run_id = id }) rows))
      ≡ some id
find-updated d u id [] h = absurd (cc)
find-updated d u id (r ∷ rs) h = elim (Bool-cases (is_reaction d u r)) [
  | inl e ↦ ground (arith, e)
  | inr e ↦ ground (arith, e, h, find-updated d u id rs)
]

-- The reactions of the other pairs.
find-others :
    (d u d' u' : String) (id : ℕ) (rows : List Reaction)
    → d' == d && u' == u ≡ false
    → run_of (
        find
          (is_reaction d u)
          (update_where (is_reaction d' u') (λ r. record r { last_reacted_run_id = id }) rows))
      ≡ run_of (find (is_reaction d u) rows)
find-others d u d' u' id [] h = refl
find-others d u d' u' id (r ∷ rs) h = elim (Bool-cases (is_reaction d' u' r)) [
  | inl e ↦ ground (arith, e, h, same_pair d u d' u' r e, find-others d u d' u' id rs h)
  | inr e ↦ ground (arith, e, find-others d u d' u' id rs h)
]

upsert-found :
    (d u d' u' : String) (id : ℕ) (rows : List Reaction)
    → run_of (find (is_reaction d u) (upsert_reaction d' u' id rows))
      ≡ (if d' == d && u' == u then some id else run_of (find (is_reaction d u) rows))
upsert-found d u d' u' id rows = elim (Bool-cases (d' == d && u' == u)) [
  | inl e ↦
      let same_d : d' ≡ d = ground (arith, e, eq_iff d' d) in
      let same_u : u' ≡ u = ground (arith, e, eq_iff u' u) in
      rw (e) (rw (same_d, same_u) (upsert_own d u id rows))
  | inr e ↦ ground (arith, e, find-others d u d' u' id rows e)
]
  where
    upsert_own :
        (d u : String) (id : ℕ) (rows : List Reaction)
        → run_of (find (is_reaction d u) (upsert_reaction d u id rows)) ≡ some id
    upsert_own d u id rows = ground (arith, find-updated d u id rows, eq_iff d d, eq_iff u u)

-- Recording a reaction of one DAG to a run of another changes what is remembered of this pair of
-- DAGs to that run, whether or not there was a reaction before, and of no other pair.
pub record_trigger_reaction_lem :
    (d u d' u' : String) (id : ℕ) (s : StateStore)
    → get_last_reacted_upstream_run_id d u (record_trigger_reaction d' u' id s)
      ≡ (if d' == d && u' == u then some id else get_last_reacted_upstream_run_id d u s)
unfolding get_last_reacted_upstream_run_id record_trigger_reaction
record_trigger_reaction_lem d u d' u' id s = upsert-found d u d' u' id s.reactions
