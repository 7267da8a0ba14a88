-- ===== src/Shards/Owner.antt =====
-- `ownerFor` of collector-shard-assignment.service.ts against a description of the owner by its score.
use trading_worker.Base.{
  ℕ, ◌≤◌, ◌<◌, ◌≡◌, ◌↔◌, refl, ◌∙◌, ap, subst, arith, Bool, true, false, List, [], ◌∷◌, ◌++◌,
  Option, some, none, ltb, All, Bool-cases, inl, inr, filter_by,
}
use native.Mathlib.Decide.{dec_lt}
use trading_worker.Base.Text.{Text}
use trading_worker.Sql.Rows.{All-filter_by, All-imp, All-concat}
use trading_worker.Shards.{beats, score_of, owner_loop, owner_for}

filter_by-middle :
    (p : Text → Bool) (x : Text)
    → p x ≡ true
    → (before after : List Text)
    → filter_by p (before ++ x ∷ after) ≡ filter_by p before ++ x ∷ filter_by p after
unfolding filter_by
filter_by-middle p x h [] after = rw h
filter_by-middle p x h (y ∷ before) after = elim (Bool-cases (p y)) [
  | inl e ↦ rw (e, filter_by-middle p x h before after)
  | inr e ↦ rw (e, filter_by-middle p x h before after)
]

module _ (symbol : Text) where
  abbrev Below : ℕ → Text → Type 0
  Below score c = score_of symbol c < score

  abbrev UpTo : ℕ → Text → Type 0
  UpTo score c = score_of symbol c ≤ score

  -- A collector of the list with the highest score for the symbol, the first of those.
  pub record IsOwner (active : List Text) (owner : Text) : Type 0 where
    pub before : List Text
    pub after : List Text
    pub is_listed : active ≡ before ++ owner ∷ after
    pub above : All (Below (score_of symbol owner)) before
    pub highest : All (UpTo (score_of symbol owner)) after

  -- Once the owner leads, the rest of the list does not change it.
  owner_loop-kept :
      (owner : Text) (rest : List Text)
      → All (UpTo (score_of symbol owner)) rest
      → owner_loop symbol (some owner) (some (score_of symbol owner)) rest ≡ some owner
  unfolding owner_loop
  owner_loop-kept owner [] h = refl
  owner_loop-kept owner (c ∷ rest) h =
      let e : ltb (score_of symbol owner) (score_of symbol c) ≡ false = ground arith in
      rw e (owner_loop-kept owner rest h.1)

  -- Whoever leads before, the owner takes the lead when it comes.
  owner_loop-IsOwner :
      (owner : Text) (best : Option Text) (best_score : Option ℕ) (before after : List Text)
      → All (Below (score_of symbol owner)) before
      → All (UpTo (score_of symbol owner)) after
      → beats (score_of symbol owner) best_score ≡ true
      → owner_loop symbol best best_score (before ++ owner ∷ after) ≡ some owner
  unfolding owner_loop
  owner_loop-IsOwner owner best best_score [] after h k w =
      rw (owner_loop, w) (owner_loop-kept owner after k)
  owner_loop-IsOwner owner best best_score (c ∷ before) after h k w =
      elim (Bool-cases (beats (score_of symbol c) best_score)) [
        | inl e ↦
            rw (owner_loop, e)
              (owner_loop-IsOwner owner (some c) (some (score_of symbol c)) before after h.1 k
                (ground arith))
        | inr e ↦ rw (owner_loop, e) (owner_loop-IsOwner owner best best_score before after h.1 k w)
      ]

  owner_for_of_IsOwner :
      (active : List Text) (owner : Text)
      → IsOwner active owner
      → owner_for symbol active ≡ some owner
  unfolding owner_for
  owner_for_of_IsOwner active owner w =
      rw (w.is_listed) (owner_loop-IsOwner owner _ none w.before w.after w.above w.highest refl)

  owner_for_nobody : (owner : Text) → owner_for symbol [] ≡ some owner → IsOwner [] owner
  unfolding owner_for owner_loop
  owner_for_nobody owner e = absurd (cc)

  -- A collector put in front either takes over or leaves the owner as it is.
  IsOwner-first :
      (c : Text) (rest : List Text) (owner : Text)
      → IsOwner rest owner
      → score_of symbol owner ≤ score_of symbol c
      → IsOwner (c ∷ rest) c
  IsOwner-first c rest owner w h = record {
    before = [];
    after = rest;
    is_listed = refl;
    above = tt;
    highest = rw (w.is_listed) (
        All-concat (UpTo (score_of symbol c)) w.before (owner ∷ w.after)
          (All-imp (Below (score_of symbol owner)) (UpTo (score_of symbol c)) (λ r p. omega arith)
            w.before w.above)
          (
            h,
            All-imp (UpTo (score_of symbol owner)) (UpTo (score_of symbol c)) (λ r p. omega arith)
                w.after w.highest,
          ));
  }

  IsOwner-later :
      (c : Text) (rest : List Text) (owner : Text)
      → IsOwner rest owner
      → score_of symbol c < score_of symbol owner
      → IsOwner (c ∷ rest) owner
  IsOwner-later c rest owner w h = record {
    before = c ∷ w.before;
    after = w.after;
    is_listed = ap (λ l. c ∷ l) w.is_listed;
    above = (h, w.above);
    highest = w.highest;
  }

  pub IsOwner-exists : (c : Text) (rest : List Text) → (owner : Text) × IsOwner (c ∷ rest) owner
  IsOwner-exists c [] =
      (c, record { before = []; after = []; is_listed = refl; above = tt; highest = tt })
  IsOwner-exists c (d ∷ rest) =
      let (owner, w) = IsOwner-exists d rest in
      elim (dec_lt (score_of symbol c) (score_of symbol owner)) [
        | yes h ↦ (owner, IsOwner-later c (d ∷ rest) owner w h)
        | no h ↦ (c, IsOwner-first c (d ∷ rest) owner w (omega arith))
      ]

  -- `ownerFor` returns the collector with the highest score, the first of those, and nothing else.
  pub owner_for_iff :
      (active : List Text) (owner : Text)
      → (owner_for symbol active ≡ some owner) ↔ IsOwner active owner
  owner_for_iff [] owner = (owner_for_nobody owner, owner_for_of_IsOwner [] owner)
  owner_for_iff (c ∷ rest) owner = (
    λ e.
        let (found, w) = IsOwner-exists c rest in
        let same : found ≡ owner = cc (e, owner_for_of_IsOwner (c ∷ rest) found w) in
        subst (IsOwner (c ∷ rest)) same w,
    owner_for_of_IsOwner (c ∷ rest) owner,
  )

  -- Whatever collectors leave or join, a symbol changes hands only with its owner: among those that are kept,
  -- the owner is the owner still if it is kept itself.
  pub owner_for-filter_by :
      (p : Text → Bool) (active : List Text) (owner : Text)
      → owner_for symbol active ≡ some owner
      → p owner ≡ true
      → owner_for symbol (filter_by p active) ≡ some owner
  owner_for-filter_by p active owner e kept =
      let w = (owner_for_iff active owner).0 e in
      owner_for_of_IsOwner (filter_by p active) owner (record {
        before = filter_by p w.before;
        after = filter_by p w.after;
        is_listed = ap (filter_by p) w.is_listed ∙ filter_by-middle p owner kept w.before w.after;
        above = All-filter_by _ _ p (λ r _ h. h) w.before w.above;
        highest = All-filter_by _ _ p (λ r _ h. h) w.after w.highest;
      })
