-- ===== src/ModelCard/Checks.antt =====
-- What a check that passes has found: a rule for each way to build one, and what the tests mean.
use document_classifier_week.Prelude.{
  ◌≡◌, refl, ap, String, Bool, true, false, List, [], ◌∷◌, arith, string_eq, eq_iff, both, subst,
}
use document_classifier_week.ModelCard.Values.{
  Json, Items, nil, cons, Fault, Checked, ok, err, ◌>>=◌, refuse_if, is_string, same_items,
  same_strings,
}

-- If the check passes with a value, this value satisfies `Q`.
pub record Passes {A : Type 0} (c : Checked A) (Q : A → Type 0) : Type 0 where
  pub value : (a : A) → c ≡ ok a → Q a

module _ {A : Type 0} where
  ok-equal : {a b : A} → Path (Checked A) (ok a) (ok b) → a ≡ b
  ok-equal h = grind arith

  pub Passes-ok : {Q : A → Type 0} (a : A) → Q a → Passes (ok a) Q
  Passes-ok {Q = Q} a q = record { value = λ b h. subst Q (ok-equal h) q }

  pub Passes-err : {Q : A → Type 0} (e : Fault) → Passes (err e) Q
  Passes-err e = record { value = λ a h. grind arith }

  pub Passes-any : (c : Checked A) → Passes c (λ a. Unit)
  Passes-any c = record { value = λ a h. tt }

module _ {A B : Type 0} where
  bind_inv :
      (c : Checked A) (f : A → Checked B) (b : B)
      → (c >>= f) ≡ ok b
      → (a : A) × (c ≡ ok a) × (f a ≡ ok b)
  bind_inv (ok a) f b h = (a, refl, h)
  bind_inv (err e) f b h = grind arith

  pub Passes-bind :
      {R : A → Type 0} {Q : B → Type 0} {c : Checked A} {f : A → Checked B}
      → Passes c R
      → ((a : A) → R a → Passes (f a) Q)
      → Passes (c >>= f) Q
  Passes-bind {c = c} {f = f} first rest = record {
    value = λ b h. let (a, e, e') = bind_inv c f b h in (rest a (first.value a e)).value b e';
  }

pub Passes-refuse_if : (b : Bool) (e : Fault) → Passes (refuse_if b e) (λ a. b ≡ false)
Passes-refuse_if true e = Passes-err e
Passes-refuse_if false e = Passes-ok tt refl

-- the JSON list of these texts
abbrev pub texts : {N : Type 0} → List String → Items N
texts [] = nil
texts (s ∷ ss) = cons (Json.str s) (texts ss)

module _ {N : Type 0} where
  pub is_string-str : (s : String) (j : Json N) → is_string s j ≡ true → j ≡ Json.str s
  is_string-str s (Json.str t) h = ap Json.str ((eq_iff t s).0 h)
  is_string-str s Json.null h = grind arith
  is_string-str s (Json.bool b) h = grind arith
  is_string-str s (Json.number n) h = grind arith
  is_string-str s (Json.arr items) h = grind arith
  is_string-str s (Json.obj d) h = grind arith

  same_items-texts :
      (items : Items N) (ss : List String) → same_items items ss ≡ true → items ≡ texts ss
  same_items-texts nil [] h = refl
  same_items-texts nil (s ∷ ss) h = grind arith
  same_items-texts (cons j items) [] h = grind arith
  same_items-texts (cons j items) (s ∷ ss) h =
      let (first, rest) = both (is_string s j) (same_items items ss) h in
      (λ i. cons (is_string-str s j first i) (same_items-texts items ss rest i))

  pub same_strings-texts :
      (j : Json N) (ss : List String) → same_strings j ss ≡ true → j ≡ Json.arr (texts ss)
  same_strings-texts (Json.arr items) ss h = ap Json.arr (same_items-texts items ss h)
  same_strings-texts Json.null ss h = grind arith
  same_strings-texts (Json.bool b) ss h = grind arith
  same_strings-texts (Json.number n) ss h = grind arith
  same_strings-texts (Json.str s) ss h = grind arith
  same_strings-texts (Json.obj d) ss h = grind arith
