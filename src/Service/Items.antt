-- ===== src/Service/Items.antt =====
-- internal/queueservice/serilizer.go: ParseItems and FormatItems. A string is the list of its bytes; a comma is 44.
use fyer_kit.Prelude.{
  ℕ, ◌≡◌, ◌≢◌, refl, ap, ◌∙◌, Bool, true, false, not, ◌&&◌, List, [], ◌∷◌, ◌++◌, arith, ◌==◌,
  if◌then◌else◌, if-intro,
}

abbrev pub comma : ℕ
comma = 44

-- A byte before the first piece.
abbrev pub cons_first : ℕ → List (List ℕ) → List (List ℕ)
cons_first c [] = (c ∷ []) ∷ []
cons_first c (x ∷ xs) = (c ∷ x) ∷ xs

-- strings.Split(s, ",")
unfoldable pub split : List ℕ → List (List ℕ)
split [] = [] ∷ []
split (c ∷ s) = let rest = split s in if c == comma then [] ∷ rest else cons_first c rest

-- strings.Join(items, ",")
unfoldable pub join : List (List ℕ) → List ℕ
join [] = []
join (x ∷ []) = x
join (x ∷ y ∷ ys) = x ++ comma ∷ join (y ∷ ys)

unfoldable pub parse_items : List ℕ → List (List ℕ)
parse_items [] = []
parse_items (c ∷ s) = split (c ∷ s)

unfoldable pub format_items : List (List ℕ) → List ℕ
format_items items = join items

abbrev pub no_comma : List ℕ → Bool
no_comma [] = true
no_comma (c ∷ s) = not (c == comma) && no_comma s

abbrev pub plain : List (List ℕ) → Bool
plain [] = true
plain (x ∷ xs) = no_comma x && plain xs

split_piece : (x : List ℕ) → no_comma x ≡ true → split x ≡ x ∷ []
unfolding split
split_piece [] h = refl
split_piece (c ∷ x) h =
    let e : (c == comma) ≡ false = ground (arith, h) in
    let r : no_comma x ≡ true = ground (arith, h) in rw (e, split_piece x r) refl

split_first : (x s : List ℕ) → no_comma x ≡ true → split (x ++ comma ∷ s) ≡ x ∷ split s
unfolding split
split_first [] s h = refl
split_first (c ∷ x) s h =
    let e : (c == comma) ≡ false = ground (arith, h) in
    let r : no_comma x ≡ true = ground (arith, h) in rw (e, split_first x s r) refl

split-join :
    (x : List ℕ) (xs : List (List ℕ)) → plain (x ∷ xs) ≡ true → split (join (x ∷ xs)) ≡ x ∷ xs
unfolding join
split-join x [] h = split_piece x (ground (arith, h))
split-join x (y ∷ ys) h =
    split_first x (join (y ∷ ys)) (ground (arith, h))
    ∙ ap (x ∷◌) (split-join y ys (ground (arith, h)))

parse-split : (s : List ℕ) → s ≢ [] → parse_items s ≡ split s
unfolding parse_items
parse-split [] h = absurd (h refl)
parse-split (c ∷ s) h = refl

-- Items without a comma, unless they are none or one empty item, come back from the string that FormatItems makes
-- of them.
pub parse_items-format_items :
    (items : List (List ℕ))
    → plain items ≡ true
    → format_items items ≢ []
    → parse_items (format_items items) ≡ items
unfolding format_items
parse_items-format_items [] h some_in = absurd (some_in (unfold join in refl))
parse_items-format_items (x ∷ xs) h some_in =
    parse-split (join (x ∷ xs)) some_in ∙ split-join x xs h

join-cons_first : (c : ℕ) (l : List (List ℕ)) → join (cons_first c l) ≡ c ∷ join l
unfolding join
join-cons_first c [] = refl
join-cons_first c (x ∷ []) = refl
join-cons_first c (x ∷ y ∷ ys) = refl

join_empty : (l : List (List ℕ)) → l ≢ [] → join ([] ∷ l) ≡ comma ∷ join l
unfolding join
join_empty [] h = absurd (h refl)
join_empty (x ∷ l) h = refl

cons_some : (c : ℕ) (l : List (List ℕ)) → cons_first c l ≢ []
cons_some c [] = ground arith
cons_some c (x ∷ l) = ground arith

split_some : (s : List ℕ) → split s ≢ []
unfolding split
split_some [] = ground arith
split_some (c ∷ s) =
    if-intro (λ (l : List (List ℕ)). l ≢ []) (c == comma) (λ _. ground arith)
      λ _. cons_some c (split s)

join-split : (s : List ℕ) → join (split s) ≡ s
unfolding split
join-split [] = unfold join in refl
join-split (c ∷ s) =
    if-intro (λ (l : List (List ℕ)). join l ≡ c ∷ s) (c == comma)
      (λ e.
        join_empty (split s) (split_some s)
        ∙ (let f : c ≡ comma = ground (arith, e) in rw (f, join-split s) refl))
      λ _. join-cons_first c (split s) ∙ ap (c ∷◌) (join-split s)

-- FormatItems puts together again whatever ParseItems takes apart.
pub format_items-parse_items : (s : List ℕ) → format_items (parse_items s) ≡ s
unfolding format_items parse_items
format_items-parse_items [] = unfold join in refl
format_items-parse_items (c ∷ s) = join-split (c ∷ s)
