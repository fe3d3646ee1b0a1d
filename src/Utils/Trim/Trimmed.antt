-- ===== src/Utils/Trim/Trimmed.antt =====
-- What `trim` leaves: the text between the spaces at both ends.
use bialet.Utils.Trim.{is_space, trim_start, trim_end, trim}
use bialet.Prelude.{
  ℕ, ◌≡◌, refl, ap, ◌∙◌, true, false, inl, inr, [], ◌∷◌, ◌++◌, if◌then◌else◌, Bytes, peek, All,
  arith, Bool-cases,
}

abbrev pub IsBlank : Bytes → Type 0
IsBlank = All (λ c. is_space c ≡ true)

-- The last byte, and NUL for the empty text.
abbrev pub last_byte : Bytes → ℕ
last_byte [] = 0
last_byte (c ∷ []) = c
last_byte (c ∷ (d ∷ s)) = last_byte (d ∷ s)

-- `t` is `s` without the spaces around it.
pub record Trims (s t : Bytes) : Type 0 where
  pub lead : Bytes
  pub tail : Bytes
  pub splits : s ≡ lead ++ (t ++ tail)
  pub lead_blank : IsBlank lead
  pub tail_blank : IsBlank tail
  pub starts_full : is_space (peek t) ≡ false
  pub ends_full : is_space (last_byte t) ≡ false

-- What one of the loops leaves.
record Start (s t : Bytes) : Type 0 where
  lead : Bytes
  splits : s ≡ lead ++ t
  blank : IsBlank lead
  full : is_space (peek t) ≡ false

record End (s t : Bytes) : Type 0 where
  tail : Bytes
  splits : s ≡ t ++ tail
  blank : IsBlank tail
  full : is_space (last_byte t) ≡ false
  first : is_space (peek s) ≡ false → peek t ≡ peek s

trim_start-Start : (s : Bytes) → Start s (trim_start s)
unfolding trim_start
trim_start-Start [] = record { lead = []; splits = refl; blank = tt; full = refl }
trim_start-Start (c ∷ s) = elim (Bool-cases (is_space c)) [
  | inl e ↦
      let r = trim_start-Start s in
      rw e (record {
        lead = c ∷ r.lead;
        splits = ap (◌∷◌ c) r.splits;
        blank = (e, r.blank);
        full = r.full;
      })
  | inr e ↦ rw e (record { lead = []; splits = refl; blank = tt; full = e })
]

-- A round of the second loop, from what it leaves of the bytes behind the first.
abbrev end_step : ℕ → Bytes → Bytes
end_step c rest = elim rest [ [] ↦ if is_space c then [] else c ∷ [] | d ∷ t ↦ c ∷ (d ∷ t) ]

end_step-End : (c : ℕ) (s t : Bytes) → End s t → End (c ∷ s) (end_step c t)
end_step-End c s (d ∷ t) r = record {
  tail = r.tail;
  splits = ap (◌∷◌ c) r.splits;
  blank = r.blank;
  full = r.full;
  first = λ h. refl;
}
end_step-End c s [] r = elim (Bool-cases (is_space c)) [
  | inl e ↦ rw e (record {
    tail = c ∷ r.tail;
    splits = ap (◌∷◌ c) r.splits;
    blank = (e, r.blank);
    full = refl;
    first = λ h. absurd (ground arith);
  })
  | inr e ↦ rw e (record {
    tail = r.tail;
    splits = ap (◌∷◌ c) r.splits;
    blank = r.blank;
    full = e;
    first = λ h. refl;
  })
]

trim_end-End : (s : Bytes) → End s (trim_end s)
unfolding trim_end
trim_end-End [] = record { tail = []; splits = refl; blank = tt; full = refl; first = λ h. refl }
trim_end-End (c ∷ s) = end_step-End c s (trim_end s) (trim_end-End s)

-- The trimmed text is the given one without spaces that stood at its beginning and its end, and
-- it neither begins nor ends with a space.
pub trim-Trims : (str : Bytes) → Trims str (trim str)
unfolding trim
trim-Trims str =
    let a = trim_start-Start str in
    let b = trim_end-End (trim_start str) in
    record {
      lead = a.lead;
      tail = b.tail;
      splits = a.splits ∙ ap (◌++◌ a.lead) b.splits;
      lead_blank = a.blank;
      tail_blank = b.blank;
      starts_full = ap is_space (b.first a.full) ∙ a.full;
      ends_full = b.full;
    }
