-- ===== src/Scheduler/Pidfile/Exclusive.antt =====
-- Processes that claim, release and lose the scheduler's lock, in any order.
use nexolith.Base.{
  if◌then◌else◌, ℕ, suc, String, List, [], ◌∷◌, ◌++◌, Bool, true, false, Option, none, some, ◌≡◌,
  refl, ◌∙◌, arith, Result, ok, err,
}
use nexolith.ProcessIdentity.{ProcessIdentityProvider}
use nexolith.Scheduler.Pidfile.Marker.{MarkerFile, JsonCodec}
use nexolith.Scheduler.Pidfile.{
  PidFileClaim, Disk, unlocked, with_marker, holds, acquire_pidfile, remove_marker, release_pidfile,
  PidFileRecord,
}
use nexolith.Scheduler.Pidfile.Owner.{Attempted, Granted, acquire_pidfile-Attempted}

-- The files, and the claims that living processes hold.
pub record System : Type 0 where
  pub disk : Disk
  pub holders : List PidFileClaim

abbrev pub with_claim : Result PidFileClaim → List PidFileClaim → List PidFileClaim
with_claim (err e) claims = claims
with_claim (ok c) claims = if c.acquired then c ∷ claims else claims

-- The operating system gives back the locks of a process that ends.
abbrev pub freed : Option ℕ → Disk → Disk
freed none d = d
freed (some lease) d = if holds d.lock lease then unlocked d else d

module _ (codec : JsonCodec) (provider : ProcessIdentityProvider) where
  pub data Step : System → System → Type 0 where
    acquire :
        (others : ℕ → MarkerFile → MarkerFile) (pid : ℕ) (started_at : String) (d : Disk)
        (claims : List PidFileClaim)
        → Step
            (record { disk = d; holders = claims })
            (record {
              disk = (acquire_pidfile codec provider others pid started_at d).1;
              holders =
                  with_claim (acquire_pidfile codec provider others pid started_at d).0 claims;
            })
    release :
        (others : ℕ → MarkerFile → MarkerFile) (d : Disk) (before : List PidFileClaim)
        (c : PidFileClaim) (after : List PidFileClaim)
        → Step
            (record { disk = d; holders = before ++ c ∷ after })
            (record { disk = (release_pidfile codec others c d).1; holders = before ++ after })
    crash :
        (d : Disk) (before : List PidFileClaim) (c : PidFileClaim) (after : List PidFileClaim)
        → Step
            (record { disk = d; holders = before ++ c ∷ after })
            (record { disk = freed c.lease d; holders = before ++ after })
    edit :
        (m : MarkerFile) (d : Disk) (claims : List PidFileClaim)
        → Step
            (record { disk = d; holders = claims })
            (record { disk = with_marker m d; holders = claims })

  pub data Reach : System → System → Type 0 where
    here : (s : System) → Reach s s
    more : {s t u : System} → Reach s t → Step t u → Reach s u

-- The lock is free when no process has a claim, else it is that of the one claim there is.
abbrev pub IsExclusive : Disk → List PidFileClaim → Type 0
IsExclusive d [] = d.lock ≡ none
IsExclusive d (c ∷ []) =
    (c.acquired ≡ true)
    × ((owner : PidFileRecord) × (c.owned ≡ some owner))
    × ((lease : ℕ) × (c.lease ≡ some lease) × (d.lock ≡ some lease))
IsExclusive d (c ∷ b ∷ claims) = ⊥

module _ (codec : JsonCodec) where
  remove_marker_lock :
      (others : ℕ → MarkerFile → MarkerFile) (owner : PidFileRecord) (d : Disk)
      → (remove_marker codec others owner d).1.lock ≡ d.lock
  unfolding remove_marker
  remove_marker_lock others owner d = ground arith

  release_pidfile-free :
      (others : ℕ → MarkerFile → MarkerFile) (c : PidFileClaim) (d : Disk)
      → IsExclusive d (c ∷ [])
      → (release_pidfile codec others c d).1.lock ≡ none
  unfolding release_pidfile
  release_pidfile-free others c d h = grind (arith, remove_marker_lock)

freed_lock : (c : PidFileClaim) (d : Disk) → IsExclusive d (c ∷ []) → (freed c.lease d).lock ≡ none
freed_lock c d h = ground arith

IsExclusive-lock :
    (d d' : Disk) (claims : List PidFileClaim)
    → d'.lock ≡ d.lock
    → IsExclusive d claims
    → IsExclusive d' claims
IsExclusive-lock d d' [] same i = same ∙ i
IsExclusive-lock d d' (c ∷ []) same (taken, owner, (lease, leased, locked)) =
    (taken, owner, (lease, leased, same ∙ locked))
IsExclusive-lock d d' (c ∷ b ∷ claims) same i = i

-- A process that has the lock excludes a free lock.
IsExclusive-free :
    (d : Disk) (claims : List PidFileClaim) → IsExclusive d claims → d.lock ≡ none → claims ≡ []
IsExclusive-free d [] i free = refl
IsExclusive-free d (c ∷ []) (taken, owner, (lease, leased, locked)) free = cc
IsExclusive-free d (c ∷ b ∷ claims) i free = absurd i

module _ (codec : JsonCodec) (provider : ProcessIdentityProvider) where
  Granted-only :
      (pid : ℕ) (started_at : String) (d : Disk) (c : PidFileClaim) (d' : Disk)
      (claims : List PidFileClaim)
      → IsExclusive d claims
      → c.acquired ≡ true
      → Granted codec provider pid started_at d c d'
      → IsExclusive d' (c ∷ claims)
  Granted-only pid started_at d c d' claims i taken g =
      rw (IsExclusive-free d claims i g.free)
        (taken, (g.owner, g.owned), (suc d.leases, g.lease, g.held))

  decided_step :
      (pid : ℕ) (started_at : String) (d : Disk) (c : PidFileClaim) (d' : Disk)
      (claims : List PidFileClaim) (b : Bool)
      → IsExclusive d claims
      → c.acquired ≡ b
      → (if b then Granted codec provider pid started_at d c d' else d'.lock ≡ d.lock)
      → IsExclusive d' (if b then c ∷ claims else claims)
  decided_step pid started_at d c d' claims true i taken g =
      Granted-only pid started_at d c d' claims i taken g
  decided_step pid started_at d c d' claims false i refused same =
      IsExclusive-lock d d' claims same i

  acquire_step :
      (pid : ℕ) (started_at : String) (d : Disk) (out : Result PidFileClaim × Disk)
      (claims : List PidFileClaim)
      → Attempted codec provider pid started_at d out
      → IsExclusive d claims
      → IsExclusive out.1 (with_claim out.0 claims)
  acquire_step pid started_at d (err e, d') claims h i = IsExclusive-lock d d' claims h i
  acquire_step pid started_at d (ok c, d') claims h i =
      decided_step pid started_at d c d' claims c.acquired i refl h

  pub Step-IsExclusive :
      (s t : System)
      → Step codec provider s t
      → IsExclusive s.disk s.holders
      → IsExclusive t.disk t.holders
  Step-IsExclusive s t (acquire others pid started_at d claims) i =
      acquire_step pid started_at d _ claims
        (acquire_pidfile-Attempted codec provider others pid started_at d) i
  Step-IsExclusive s t (release others d [] c []) i = release_pidfile-free codec others c d i
  Step-IsExclusive s t (release others d [] c (b ∷ after)) i = absurd i
  Step-IsExclusive s t (release others d (a ∷ []) c after) i = absurd i
  Step-IsExclusive s t (release others d (a ∷ b ∷ before) c after) i = absurd i
  Step-IsExclusive s t (crash d [] c []) i = freed_lock c d i
  Step-IsExclusive s t (crash d [] c (b ∷ after)) i = absurd i
  Step-IsExclusive s t (crash d (a ∷ []) c after) i = absurd i
  Step-IsExclusive s t (crash d (a ∷ b ∷ before) c after) i = absurd i
  Step-IsExclusive s t (edit m d claims) i = IsExclusive-lock d (with_marker m d) claims refl i

  -- However processes claim the scheduler's lock, release it and end, and whatever they make of
  -- the marker, it stays true that the lock is free when no process has a claim, and that else one
  -- process has a claim, on it.
  pub Reach-IsExclusive :
      (s t : System)
      → Reach codec provider s t
      → IsExclusive s.disk s.holders
      → IsExclusive t.disk t.holders
  Reach-IsExclusive s t (here same) i = i
  Reach-IsExclusive s t (more {t = m} r step) i =
      Step-IsExclusive m t step (Reach-IsExclusive s m r i)
