-- ===== src/Scheduler/Interval/Laws.antt =====
-- Which texts are intervals, and how long they are.
use native.Mathlib.Nat.{pow-suc}
use nexolith.Base.{
  ℕ, zero, suc, ◌+◌, ◌*◌, ◌^◌, ◌≤◌, ◌<◌, String, List, [], ◌∷◌, ◌++◌, Option, none, some, length,
  nat_eq, ◌≡◌, ◌↔◌, refl, ap, inl, inr, Option-cases, ok, arith, sym, ◌∙◌,
}
use nexolith.Scheduler.Interval.{
  Unicode, codes, unit_seconds, max_seconds, max_digits, lstrip, rstrip, match_unit, match_interval,
  to_timedelta, parse_interval,
}

-- The number that a list of decimal digits denotes.
abbrev pub positional : List ℕ → ℕ
positional [] = 0
positional (v ∷ vs) = v * 10 ^ length vs + positional vs

shift : (a v n q : ℕ) → (a * 10 + v) * 10 ^ n + q ≡ a * 10 ^ suc n + (v * 10 ^ n + q)
shift a v n q = rw (pow-suc 10 n) (omega arith)

module _ (u : Unicode) where
  -- The characters are digits of these values.
  abbrev pub Values : List ℕ → List ℕ → Type 0
  Values [] [] = Unit
  Values (d ∷ ds) (v ∷ vs) = (u.decimal d ≡ some v) × Values ds vs
  Values _ _ = ⊥

  -- Digits and the letter of a unit.
  pub record IsMatch (cs : List ℕ) (digits amount unit : ℕ) : Type 0 where
    pub figures : List ℕ
    pub values : List ℕ
    pub letter : ℕ
    pub whole : cs ≡ figures ++ letter ∷ []
    pub read : Values figures values
    pub count : length values ≡ digits
    pub value : positional values ≡ amount
    pub letter_unit : unit_seconds letter ≡ some unit
    pub no_digit : u.decimal letter ≡ none

  -- The same behind `k` digits of the value `a`.
  record IsRest (k a : ℕ) (cs : List ℕ) (digits amount unit : ℕ) : Type 0 where
    figures : List ℕ
    values : List ℕ
    letter : ℕ
    whole : cs ≡ figures ++ letter ∷ []
    read : Values figures values
    count : k + length values ≡ digits
    some_digit : 0 < digits
    value : a * 10 ^ length values + positional values ≡ amount
    letter_unit : unit_seconds letter ≡ some unit
    no_digit : u.decimal letter ≡ none

  match_unit_inv :
      (k a c : ℕ) (cs : List ℕ) (digits amount unit : ℕ)
      → match_unit u k a c cs ≡ some (digits, amount, unit)
      → (cs ≡ []) × (k ≡ digits) × (0 < k) × (a ≡ amount) × (unit_seconds c ≡ some unit)
  unfolding match_unit
  match_unit_inv zero a c cs n m w h = absurd (cc)
  match_unit_inv (suc k) a c [] n m w h = ground arith
  match_unit_inv (suc k) a c (d ∷ ds) n m w h = absurd (cc)

  match_interval-IsRest :
      (k a : ℕ) (cs : List ℕ) (digits amount unit : ℕ)
      → match_interval u k a cs ≡ some (digits, amount, unit)
      → IsRest k a cs digits amount unit
  unfolding match_interval
  match_interval-IsRest k a [] n m w h = absurd (cc)
  match_interval-IsRest k a (c ∷ cs) n m w h = elim (Option-cases (u.decimal c)) [
    | inl e ↦
        let (last, count, positive, value, letter) = match_unit_inv k a c cs n m w (ground arith) in
        record {
          figures = [];
          values = [];
          letter = c;
          whole = ap (λ l. c ∷ l) last;
          read = tt;
          count = omega arith;
          some_digit = omega arith;
          value = omega arith;
          letter_unit = letter;
          no_digit = e;
        }
    | inr (v, e) ↦
        let r = match_interval-IsRest (suc k) (a * 10 + v) cs n m w (ground arith) in
        record {
          figures = c ∷ r.figures;
          values = v ∷ r.values;
          letter = r.letter;
          whole = ap (λ l. c ∷ l) r.whole;
          read = (e, r.read);
          count = omega (arith, r.count);
          some_digit = r.some_digit;
          value = sym (shift a v (length r.values) (positional r.values)) ∙ r.value;
          letter_unit = r.letter_unit;
          no_digit = r.no_digit;
        }
  ]

  match_interval_read :
      (k a : ℕ) (ds vs : List ℕ) (c unit : ℕ)
      → Values ds vs
      → 0 < k + length vs
      → unit_seconds c ≡ some unit
      → u.decimal c ≡ none
      → match_interval u k a (ds ++ c ∷ [])
        ≡ some (k + length vs, a * 10 ^ length vs + positional vs, unit)
  unfolding match_interval match_unit
  match_interval_read zero a [] [] c unit r pos e d = absurd (omega arith)
  match_interval_read (suc k) a [] [] c unit r pos e d = ground arith
  match_interval_read k a [] (v ∷ vs) c unit r pos e d = absurd r
  match_interval_read k a (x ∷ ds) [] c unit r pos e d = absurd r
  match_interval_read k a (x ∷ ds) (v ∷ vs) c unit r pos e d = ground (
    arith,
    r.0,
    match_interval_read (suc k) (a * 10 + v) ds vs c unit r.1 (omega arith) e d,
    shift a v (length vs) (positional vs),
  )

  -- A positive amount with at most 4300 digits that a `timedelta` can hold, and its length in
  -- seconds.
  pub record IsInterval (cs : List ℕ) (seconds : ℕ) : Type 0 where
    pub digits : ℕ
    pub amount : ℕ
    pub unit : ℕ
    pub shape : IsMatch cs digits amount unit
    pub some_digit : 0 < digits
    pub few_digits : digits ≤ max_digits
    pub positive : 0 < amount
    pub length : seconds ≡ amount * unit
    pub bounded : seconds ≤ max_seconds

  abbrev pub stripped : String → List ℕ
  stripped s = rstrip u (lstrip u (codes s))

  to_timedelta_inv :
      (s : String) (o : Option (ℕ × ℕ × ℕ)) (t : ℕ)
      → to_timedelta u s o ≡ ok t
      → (n : ℕ) × (m : ℕ) × (w : ℕ) × (o ≡ some (n, m, w))
        × (n ≤ max_digits)
        × (0 < m)
        × (t ≡ m * w)
        × (t ≤ max_seconds)
  unfolding to_timedelta
  to_timedelta_inv s none t h = absurd (cc)
  to_timedelta_inv s (some (n, m, w)) t h =
      (n, m, w, refl, ground arith, ground arith, ground arith, ground arith)

  to_timedelta_fits :
      (s : String) (n m w t : ℕ)
      → n ≤ max_digits
      → 0 < m
      → t ≡ m * w
      → t ≤ max_seconds
      → to_timedelta u s (some (n, m, w)) ≡ ok t
  unfolding to_timedelta
  to_timedelta_fits s n m w t few pos len bound = ground arith

  IsMatch-found :
      (cs : List ℕ) (n m w : ℕ)
      → IsMatch cs n m w
      → 0 < n
      → match_interval u 0 0 cs ≡ some (n, m, w)
  IsMatch-found cs n m w i pos =
      ap (match_interval u 0 0) i.whole
      ∙ (match_interval_read 0 0 i.figures i.values i.letter w i.read (omega (arith, i.count))
            i.letter_unit i.no_digit
          ∙ same (omega (arith, i.count)) (omega (arith, i.value)))
    where
      same :
          {a b : ℕ} → a ≡ n → b ≡ m → ◌≡◌ {A = Option (ℕ × ℕ × ℕ)} (some (a, b, w)) (some (n, m, w))
      same e f = cc

  -- A schedule denotes an interval exactly if, but for white space around it, it is a run of at
  -- most 4300 decimal digits and the letter of a unit, with a positive amount, and a length that a
  -- `timedelta` can hold. The interval is the number of the digits times the seconds of the unit.
  pub parse_interval_iff :
      (s : String) (t : ℕ) → (parse_interval u s ≡ ok t) ↔ IsInterval (stripped s) t
  unfolding parse_interval
  parse_interval_iff s t = (
    λ h.
        let (n, m, w, found, few, pos, len, bound) =
          to_timedelta_inv s (match_interval u 0 0 (stripped s)) t h in
        let r = match_interval-IsRest 0 0 (stripped s) n m w found in
        record {
          digits = n;
          amount = m;
          unit = w;
          shape = record {
            figures = r.figures;
            values = r.values;
            letter = r.letter;
            whole = r.whole;
            read = r.read;
            count = omega (arith, r.count);
            value = omega (arith, r.value);
            letter_unit = r.letter_unit;
            no_digit = r.no_digit;
          };
          some_digit = r.some_digit;
          few_digits = few;
          positive = pos;
          length = len;
          bounded = bound;
        },
    λ i.
        let found : match_interval u 0 0 (stripped s) ≡ some (i.digits, i.amount, i.unit) =
          IsMatch-found (stripped s) i.digits i.amount i.unit i.shape i.some_digit in
        ap (to_timedelta u s) found
        ∙ to_timedelta_fits s i.digits i.amount i.unit t i.few_digits i.positive i.length i.bounded,
  )
