-- ===== src/Adapter/Token.antt =====
-- isHTTPToken against the grammar of RFC 7230, section 3.2.6.
use continuum_plugin_bookwar.Prelude.{
  ℕ, zero, suc, ◌<◌, ◌≤◌, ◌≡◌, ◌≢◌, refl, sym, ◌∙◌, ◌↔◌, String, Bool, true, false, Bool-cases, inl,
  inr, ◌||◌, ◌&&◌, not, List, [], ◌∷◌, codes, ◌==◌, ltb, leb, eqb, ltb_false→le, arith, All, eq_iff,
}
use continuum_plugin_bookwar.Adapter.{contains_rune, is_token_rune, all_token_runes, is_http_token}

-- tchar: a letter, a digit, or one of the punctuation marks that are not delimiters
abbrev pub is_tchar : ℕ → Bool
is_tchar c =
    leb b'a' c && leb c b'z'
    || leb b'A' c && leb c b'Z'
    || leb b'0' c && leb c b'9'
    || contains_rune (codes "!#$%&'*+-.^_`|~") c

same : Bool → Bool → Bool
same true b = b
same false b = not b

same-eq : (a b : Bool) → same a b ≡ true → a ≡ b
unfolding same
same-eq true true h = refl
same-eq true false h = cc
same-eq false true h = cc
same-eq false false h = refl

agree_below : ℕ → Bool
unfolding same
agree_below zero = true
agree_below (suc n) = same (is_token_rune n) (is_tchar n) && agree_below n

both_true : (a b : Bool) → (a && b) ≡ true → (a ≡ true) × (b ≡ true)
both_true a b h = ground arith

agree_below-eq : (n c : ℕ) → agree_below n ≡ true → c < n → is_token_rune c ≡ is_tchar c
unfolding agree_below
agree_below-eq zero c h below = elim below [ ]
agree_below-eq (suc n) c h below =
    let (here, rest) = both_true (same (is_token_rune n) (is_tchar n)) (agree_below n) h in
    elim (Bool-cases (ltb c n)) [
      | inl less ↦ agree_below-eq n c rest (ground arith)
      | inr last ↦ let e : c ≡ n = omega (arith, ltb_false→le c n last) in rw e (same-eq _ _ here)
    ]

ascii_agree : agree_below 0x80 ≡ true
unfolding agree_below is_token_rune contains_rune
ascii_agree = refl

contains_rune-none : (cs : List ℕ) (c : ℕ) → All (λ d. d < c) cs → contains_rune cs c ≡ false
unfolding contains_rune
contains_rune-none [] c h = refl
contains_rune-none (d ∷ cs) c h =
    let other : eqb d c ≡ false = ground (arith, h.0) in
    rw (other, contains_rune-none cs c h.1) refl

not_token_rune : (c : ℕ) → 0x80 ≤ c → is_token_rune c ≡ false
unfolding is_token_rune
not_token_rune c h =
    let low : ltb c 0x21 ≡ false = ground arith in
    let high : ltb 0x7E c ≡ true = ground arith in rw (low, high) refl

between-false : (lo hi c : ℕ) → hi < c → (leb lo c && leb c hi) ≡ false
between-false lo hi c h = ground arith

not_tchar : (c : ℕ) → 0x80 ≤ c → is_tchar c ≡ false
not_tchar c h =
    rw
      (
        between-false b'a' b'z' c (omega arith),
        between-false b'A' b'Z' c (omega arith),
        between-false b'0' b'9' c (omega arith),
        contains_rune-none (codes "!#$%&'*+-.^_`|~") c (omega arith),
      )
      refl

is_token_rune-eq : (c : ℕ) → is_token_rune c ≡ is_tchar c
is_token_rune-eq c = elim (Bool-cases (ltb c 0x80)) [
  | inl ascii ↦ agree_below-eq 0x80 c ascii_agree (ground arith)
  | inr beyond ↦
      let high = ltb_false→le c 0x80 beyond in not_token_rune c high ∙ sym (not_tchar c high)
]

-- Every character is a tchar.
abbrev pub AllTchar : List ℕ → Type 0
AllTchar rs = All (λ c. is_tchar c ≡ true) rs

all_token_runes_iff : (rs : List ℕ) → (all_token_runes rs ≡ true) ↔ AllTchar rs
unfolding all_token_runes
all_token_runes_iff [] = (λ _. tt, λ _. refl)
all_token_runes_iff (r ∷ rs) =
    let (sound, complete) = all_token_runes_iff rs in
    (
      λ h. let (here, rest) = both_true _ _ h in (sym (is_token_rune-eq r) ∙ here, sound rest),
      λ h. rw (is_token_rune-eq r ∙ h.0, complete h.1) refl,
    )

-- isHTTPToken accepts exactly the tokens of RFC 7230: one character or more, each a letter a–z or
-- A–Z, a digit, or one of !#$%&'*+-.^_`|~.
pub is_http_token_iff : (s : String) → (is_http_token s ≡ true) ↔ ((s ≢ "") × AllTchar (codes s))
unfolding is_http_token
is_http_token_iff s =
    let (sound, complete) = all_token_runes_iff (codes s) in
    elim (Bool-cases (s == "")) [
      | inl absent ↦ rw absent (λ h. cc, λ h. absurd (h.0 ((eq_iff s "").0 absent)))
      | inr given ↦
          rw given (λ h. (λ e. cc (rw ((eq_iff s "").1 e) at given), sound h), λ h. complete h.1)
    ]
