-- ===== src/Cache/Redis/Keys.antt =====
-- The keys of RedisSlotsCache tell rooms and dates apart.
use Prim.Native.Char.{Char, code}
use Prim.Native.String
use Prim.Native.String.append
use avito_test.Prelude.{◌≡◌, refl, sym, ap, ◌∙◌, subst, String, arith}
use avito_test.Cache.Contract.{IsPlain}
use avito_test.Cache.Redis.{room_prefix, key}
use avito_test.Cache.Redis.Laws.{IsLiteral}

abbrev tail : String → String
tail String.[] = String.[]
tail (String.◌∷◌ c s) = s

-- The first character, or `c`.
abbrev head : Char → String → Char
head c String.[] = c
head c (String.◌∷◌ d s) = d

tail-append : (c : Char) (s t : String) → tail (String.◌++◌ (String.◌∷◌ c s) t) ≡ String.◌++◌ s t
tail-append c s t = rw append.cons

head-append : (b c : Char) (s t : String) → head b (String.◌++◌ (String.◌∷◌ c s) t) ≡ c
head-append b c s t = rw append.cons

append-cancel : (p s t : String) → String.◌++◌ p s ≡ String.◌++◌ p t → s ≡ t
append-cancel String.[] s t e = sym (append.nil _) ∙ e ∙ append.nil _
append-cancel (String.◌∷◌ c p) s t e =
    append-cancel p s t (sym (tail-append c p s) ∙ ap tail e ∙ tail-append c p t)

append_assoc : (s t u : String) → String.◌++◌ (String.◌++◌ s t) u ≡ String.◌++◌ s (String.◌++◌ t u)
append_assoc String.[] t u = ap (λ s. String.◌++◌ s u) (append.nil t) ∙ sym (append.nil _)
append_assoc (String.◌∷◌ c s) t u =
    ap (λ v. String.◌++◌ v u) (append.cons c s t)
    ∙ append.cons c (String.◌++◌ s t) u
    ∙ ap (String.◌∷◌ c) (append_assoc s t u)
    ∙ sym (append.cons c s (String.◌++◌ t u))

-- A text without the separator ends where the first separator stands.
first_colon :
    (r r' d d' : String)
    → IsPlain r
    → IsPlain r'
    → String.◌++◌ r (String.◌++◌ ":" d) ≡ String.◌++◌ r' (String.◌++◌ ":" d')
    → (r ≡ r') × (d ≡ d')
first_colon String.[] String.[] d d' p q e =
    (refl, append-cancel ":" d d' (sym (append.nil _) ∙ e ∙ append.nil _))
first_colon String.[] (String.◌∷◌ c r') d d' p (o, _) e = absurd (
    o.4 (
      ap code (
        sym (ap (head c) (sym (append.nil _) ∙ e) ∙ head-append c c r' _)
        ∙ head-append c ":" "" d)))
first_colon (String.◌∷◌ c r) String.[] d d' (o, _) q e = absurd (
    o.4 (
      ap code (
        sym (ap (head c) (sym (append.nil _) ∙ sym e) ∙ head-append c c r _)
        ∙ head-append c ":" "" d')))
first_colon (String.◌∷◌ c r) (String.◌∷◌ c' r') d d' (_, p) (_, q) e =
    let rest = sym (tail-append c r _) ∙ ap tail e ∙ tail-append c' r' _ in
    let (same, then) = first_colon r r' d d' p q rest in
    let first : c ≡ c' = sym (head-append c c r _) ∙ ap (head c) e ∙ head-append c c' r' _ in
    (cc (first, same), then)

key-parts :
    (prefix room_id date : String)
    → key prefix room_id date
      ≡ String.◌++◌ prefix (String.◌++◌ ":" (String.◌++◌ room_id (String.◌++◌ ":" date)))
key-parts prefix room_id date =
    append_assoc prefix _ date
    ∙ ap (String.◌++◌ prefix)
        (append_assoc ":" _ date ∙ ap (String.◌++◌ ":") (append_assoc room_id ":" date))

-- Two rooms without a separator in their names share no key, and two dates neither.
pub key-injective :
    (prefix r r' d d' : String)
    → IsPlain r
    → IsPlain r'
    → key prefix r d ≡ key prefix r' d'
    → (r ≡ r') × (d ≡ d')
key-injective prefix r r' d d' p p' e = first_colon r r' d d' p p' (
    append-cancel ":" _ _
      (append-cancel prefix _ _ (sym (key-parts prefix r d) ∙ e ∙ key-parts prefix r' d')))

append-IsLiteral : (s t : String) → IsLiteral s → IsLiteral t → IsLiteral (String.◌++◌ s t)
append-IsLiteral String.[] t p q = subst IsLiteral (sym (append.nil t)) q
append-IsLiteral (String.◌∷◌ c s) t (o, p) q =
    subst IsLiteral (sym (append.cons c s t)) (o, append-IsLiteral s t p q)

IsLiteral-of_IsPlain : (s : String) → IsPlain s → IsLiteral s
IsLiteral-of_IsPlain String.[] p = tt
IsLiteral-of_IsPlain (String.◌∷◌ c s) (o, p) = ((o.0, o.1, o.2, o.3), IsLiteral-of_IsPlain s p)

colon : IsLiteral ":"
colon = ((ground arith, ground arith, ground arith, ground arith), tt)

-- The pattern of a room has no special character before its last one.
pub room_prefix-IsLiteral :
    (prefix room_id : String)
    → IsLiteral prefix
    → IsPlain room_id
    → IsLiteral (room_prefix prefix room_id)
room_prefix-IsLiteral prefix room_id p q = append-IsLiteral prefix _ p (
    append-IsLiteral ":" _ colon
      (append-IsLiteral room_id ":" (IsLiteral-of_IsPlain room_id q) colon))
