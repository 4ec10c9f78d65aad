-- ===== src/Commons/Strings.antt =====
-- grage-commons/app/src/misc/linux-commons-strings.c and commons_list_tokenize of
-- linux-commons-list.c. A string that is not NULL is the list of its characters, without the zero
-- behind them.
use grage.Prelude.{
  ℕ, Bool, true, false, Option, none, some, List, [], ◌∷◌, ◌++◌, ◌==◌, ◌&&◌, ◌||◌, ◌≡◌, ◌≢◌, refl,
  ap, sym, ◌∙◌, if◌then◌else◌, ne→==, ==_iff, append_assoc, append-nil,
}

-- commons_string_equals, of strings that are not NULL
abbrev pub string_equals : List ℕ → List ℕ → Bool
string_equals [] [] = true
string_equals [] (y ∷ ys) = false
string_equals (x ∷ xs) [] = false
string_equals (x ∷ xs) (y ∷ ys) = (x == y) && string_equals xs ys

-- SP and EOL
abbrev is_space : ℕ → Bool
is_space c = (c == 32) || (c == 10)

-- The loop of commons_string_trim at the end of a string: what is left behind the first character.
unfoldable pub trim_end : List ℕ → List ℕ
trim_end [] = []
trim_end (c ∷ cs) =
    let rest = trim_end cs in
    elim rest [ [] ↦ if is_space c then [] else c ∷ [] | d ∷ ds ↦ c ∷ d ∷ ds ]

-- Its loop at the start.
unfoldable pub trim_start : List ℕ → List ℕ
trim_start [] = []
trim_start (c ∷ cs) = if c == 32 then trim_start cs else c ∷ cs

-- commons_string_trim, whose first loop keeps the first character
unfoldable pub trim : List ℕ → List ℕ
unfolding trim_end trim_start
trim [] = []
trim (c ∷ cs) = trim_start (c ∷ trim_end cs)

-- A token that is added to a list of strings, unless it is empty.
unfoldable pub add_token : List ℕ → List (List ℕ) → List (List ℕ)
add_token token list = if string_equals (trim token) [] then list else trim token ∷ list

-- The loop of commons_list_tokenize, with the token so far.
unfoldable pub tokens_from : ℕ → List ℕ → List ℕ → List (List ℕ)
tokens_from separator token [] = add_token token []
tokens_from separator token (c ∷ cs) =
    let cut = add_token token (tokens_from separator [] cs) in
    let onward = tokens_from separator (token ++ (c ∷ [])) cs in
    if c == separator then cut else onward

-- commons_list_tokenize, of a string that is not NULL
unfoldable pub tokenize : List ℕ → ℕ → Option (List (List ℕ))
tokenize tokens separator = elim (tokens_from separator [] tokens) [
  | [] ↦ none
  | t ∷ ts ↦ some (t ∷ ts)
]

-- commons_string_startsWith; `s1` is at least as long as `s2`, and `toupper` is the C library's.
unfoldable pub starts_with : (ℕ → ℕ) → List ℕ → List ℕ → Bool
starts_with toupper s1 [] = true
starts_with toupper [] (d ∷ ds) = false
starts_with toupper (c ∷ cs) (d ∷ ds) = (toupper c == toupper d) && starts_with toupper cs ds

-- A name that trimming keeps: it has characters, none of which is the separator or a space.
abbrev pub IsName : ℕ → List ℕ → Type 0
IsName separator [] = Unit {0}
IsName separator (c ∷ cs) = (c ≢ separator) × (c ≢ 32) × (c ≢ 10) × IsName separator cs

abbrev pub AreNames : ℕ → List (List ℕ) → Type 0
AreNames separator [] = Unit {0}
AreNames separator (n ∷ ns) = (n ≢ []) × IsName separator n × AreNames separator ns

-- The path that has these names.
abbrev pub path_of : ℕ → List (List ℕ) → List ℕ
path_of separator [] = []
path_of separator (n ∷ ns) = separator ∷ (n ++ path_of separator ns)

no_space : (c : ℕ) → c ≢ 32 → c ≢ 10 → is_space c ≡ false
no_space c a b = rw (ne→== c 32 a, ne→== c 10 b) refl

trim_end-name : (separator : ℕ) (n : List ℕ) → IsName separator n → trim_end n ≡ n
unfolding trim_end
trim_end-name separator [] h = refl
trim_end-name separator (c ∷ []) (s, a, b, h) = ap (λ x. if x then [] else c ∷ []) (no_space c a b)
trim_end-name separator (c ∷ d ∷ ds) (s, a, b, h) =
    ap
      (λ (rest : List ℕ).
        let r : List ℕ = elim rest [
          | [] ↦ if is_space c then [] else c ∷ []
          | e ∷ es ↦ c ∷ e ∷ es
        ] in
        r)
      (trim_end-name separator (d ∷ ds) h)

trim-name : (separator : ℕ) (n : List ℕ) → IsName separator n → trim n ≡ n
unfolding trim
trim-name separator [] h = refl
trim-name separator (c ∷ cs) (s, a, b, h) =
    ap (λ x. trim_start (c ∷ x)) (trim_end-name separator cs h)
    ∙ (unfold trim_start in ap (λ x. if x then trim_start cs else c ∷ cs) (ne→== c 32 a))

add_token-name :
    (separator : ℕ) (n : List ℕ) (ts : List (List ℕ))
    → n ≢ []
    → IsName separator n
    → add_token n ts ≡ n ∷ ts
unfolding add_token
add_token-name separator [] ts z h = absurd (z refl)
add_token-name separator (c ∷ cs) ts z h =
    ap (λ x. if string_equals x [] then ts else x ∷ ts) (trim-name separator (c ∷ cs) h)

-- The characters of a name go to the token.
tokens_from-name :
    (separator : ℕ) (n token rest : List ℕ)
    → IsName separator n
    → tokens_from separator token (n ++ rest) ≡ tokens_from separator (token ++ n) rest
unfolding tokens_from
tokens_from-name separator [] token rest h =
    ap (λ t. tokens_from separator t rest) (sym (append-nil token))
tokens_from-name separator (c ∷ cs) token rest (s, a, b, h) =
    ap
      (λ x.
        if x
        then add_token token (tokens_from separator [] (cs ++ rest))
        else tokens_from separator (token ++ (c ∷ [])) (cs ++ rest))
      (ne→== c separator s)
    ∙ tokens_from-name separator cs (token ++ (c ∷ [])) rest h
    ∙ ap (λ t. tokens_from separator t rest) (append_assoc token (c ∷ []) cs)

tokens_from-cut :
    (separator : ℕ) (token rest : List ℕ)
    → tokens_from separator token (separator ∷ rest)
      ≡ add_token token (tokens_from separator [] rest)
unfolding tokens_from
tokens_from-cut separator token rest =
    ap
      (λ x.
        if x
        then add_token token (tokens_from separator [] rest)
        else tokens_from separator (token ++ (separator ∷ [])) rest)
      ((==_iff separator separator).1 refl)

tokens_from-path :
    (separator : ℕ) (n : List ℕ) (ns : List (List ℕ))
    → n ≢ []
    → IsName separator n
    → AreNames separator ns
    → tokens_from separator [] (n ++ path_of separator ns) ≡ n ∷ ns
tokens_from-path separator n [] z h hs =
    tokens_from-name separator n [] [] h ∙ (unfold tokens_from in add_token-name separator n [] z h)
tokens_from-path separator n (m ∷ ms) z h (y, g, gs) =
    tokens_from-name separator n [] (path_of separator (m ∷ ms)) h
    ∙ tokens_from-cut separator n (m ++ path_of separator ms)
    ∙ add_token-name separator n (tokens_from separator [] (m ++ path_of separator ms)) z h
    ∙ ap (λ t. n ∷ t) (tokens_from-path separator m ms y g gs)

-- The tokens of a path are its names, if no name is empty or has the separator, a space or an end of
-- line, and there is a name.
pub tokenize-path_of :
    (separator : ℕ) (n : List ℕ) (ns : List (List ℕ))
    → AreNames separator (n ∷ ns)
    → tokenize (path_of separator (n ∷ ns)) separator ≡ some (n ∷ ns)
unfolding tokenize add_token
tokenize-path_of separator n ns (z, h, hs) =
    let start : add_token [] (tokens_from separator [] (n ++ path_of separator ns))
        ≡ tokens_from separator [] (n ++ path_of separator ns) =
      unfold trim in refl in
    ap
      (λ (l : List (List ℕ)).
        let r : Option (List (List ℕ)) = elim l [ [] ↦ none | t ∷ ts ↦ some (t ∷ ts) ] in r)
      (tokens_from-cut separator [] (n ++ path_of separator ns)
        ∙ start
        ∙ tokens_from-path separator n ns z h hs)
