-- ===== src/Analyzer/Lexer/Fingerprint/Lists.antt =====
-- Lists of placeholders share one fingerprint (`fpListRe` in analyzer/redact.go).
use sqlguard.Prelude.{
  ℕ, ◌-◌, ◌≡◌, ◌≢◌, refl, ap, ◌∙◌, Bool, true, false, List, [], ◌∷◌, ◌++◌, none, some, Bytes, codes,
  arith, length, length-append, All,
}
use sqlguard.Analyzer.Lexer.Fingerprint.{match_items, match_list, fold_lists}

-- `, ?` or `,?` for each entry, then the closing parenthesis and the rest of the text.
abbrev pub items_before : List Bool → Bytes → Bytes
items_before [] post = b')' ∷ post
items_before (true ∷ spaces) post = b',' ∷ b' ' ∷ b'?' ∷ items_before spaces post
items_before (false ∷ spaces) post = b',' ∷ b'?' ∷ items_before spaces post

-- A list of placeholders, one more than there are entries, in front of the rest of the text.
abbrev pub placeholders_before : List Bool → Bytes → Bytes
placeholders_before spaces post = b'(' ∷ b'?' ∷ items_before spaces post

match_items_close : (post : Bytes) → match_items true (b')' ∷ post) ≡ some post
unfolding match_items
match_items_close [] = refl
match_items_close (c ∷ []) = refl
match_items_close (c ∷ d ∷ post) = refl

match_items_near :
    (found : Bool) (c : ℕ) (rest : Bytes)
    → match_items found (b',' ∷ b'?' ∷ c ∷ rest) ≡ match_items true (c ∷ rest)
unfolding match_items
match_items_near found c rest = refl

match_items_far :
    (found : Bool) (rest : Bytes)
    → match_items found (b',' ∷ b' ' ∷ b'?' ∷ rest) ≡ match_items true rest
unfolding match_items
match_items_far found rest = refl

match_items_all :
    (spaces : List Bool) (post : Bytes) → match_items true (items_before spaces post) ≡ some post
match_items_all [] post = match_items_close post
match_items_all (true ∷ spaces) post = match_items_far true _ ∙ match_items_all spaces post
match_items_all (false ∷ []) post = match_items_near true b')' post ∙ match_items_close post
match_items_all (false ∷ true ∷ spaces) post =
    match_items_near true b',' _ ∙ match_items_all (true ∷ spaces) post
match_items_all (false ∷ false ∷ spaces) post =
    match_items_near true b',' _ ∙ match_items_all (false ∷ spaces) post

match_items_first :
    (s : Bool) (spaces : List Bool) (post : Bytes)
    → match_items false (items_before (s ∷ spaces) post) ≡ some post
match_items_first true spaces post = match_items_far false _ ∙ match_items_all spaces post
match_items_first false [] post = match_items_near false b')' post ∙ match_items_close post
match_items_first false (true ∷ spaces) post =
    match_items_near false b',' _ ∙ match_items_all (true ∷ spaces) post
match_items_first false (false ∷ spaces) post =
    match_items_near false b',' _ ∙ match_items_all (false ∷ spaces) post

fold_lists_skip : (gone post : Bytes) → fold_lists (length gone) (gone ++ post) ≡ fold_lists 0 post
unfolding fold_lists
fold_lists_skip [] post = refl
fold_lists_skip (c ∷ gone) post = fold_lists_skip gone post

-- The items as a text of their own.
items : List Bool → Bytes
items [] = b')' ∷ []
items (true ∷ spaces) = b',' ∷ b' ' ∷ b'?' ∷ items spaces
items (false ∷ spaces) = b',' ∷ b'?' ∷ items spaces

items-append : (spaces : List Bool) (post : Bytes) → items_before spaces post ≡ items spaces ++ post
unfolding items
items-append [] post = refl
items-append (true ∷ spaces) post = rw (items-append spaces post)
items-append (false ∷ spaces) post = rw (items-append spaces post)

match_list_placeholders :
    (s : Bool) (spaces : List Bool) (post : Bytes)
    → match_list (placeholders_before (s ∷ spaces) post) ≡ some post
unfolding match_list
match_list_placeholders s spaces post = match_items_first s spaces post

match_list_other : (c : ℕ) (rest : Bytes) → c ≢ b'(' → match_list (c ∷ rest) ≡ none
unfolding match_list
match_list_other c [] h = refl
match_list_other c (d ∷ rest) h = ground arith

-- The two steps of the replacement, as equations.
fold_lists_match :
    (c : ℕ) (rest after : Bytes)
    → match_list (c ∷ rest) ≡ some after
    → fold_lists 0 (c ∷ rest) ≡ codes "(?)" ++ fold_lists (length rest - length after) rest
unfolding fold_lists
fold_lists_match c rest after h = rw (h, fold_lists)

fold_lists_other :
    (c : ℕ) (rest : Bytes)
    → match_list (c ∷ rest) ≡ none
    → fold_lists 0 (c ∷ rest) ≡ c ∷ fold_lists 0 rest
unfolding fold_lists
fold_lists_other c rest h = rw (h, fold_lists)

fold_lists_placeholders :
    (s : Bool) (spaces : List Bool) (post : Bytes)
    → fold_lists 0 (placeholders_before (s ∷ spaces) post) ≡ codes "(?)" ++ fold_lists 0 post
fold_lists_placeholders s spaces post =
    let gone : Bytes = b'?' ∷ items (s ∷ spaces) in
    let behind : b'?' ∷ items_before (s ∷ spaces) post ≡ gone ++ post =
      ap (◌∷◌ b'?') (items-append (s ∷ spaces) post) in
    let width : length (b'?' ∷ items_before (s ∷ spaces) post) - length post ≡ length gone =
      omega (arith, length-append gone post, ap (λ (t : Bytes). length t) behind) in
    fold_lists_match b'(' (b'?' ∷ items_before (s ∷ spaces) post) post
      (match_list_placeholders s spaces post)
    ∙ rw (width, behind, fold_lists_skip gone post)

-- Text in front of a list that opens no parenthesis is left as it is, and the list folds to `(?)`:
-- two lists of two or more placeholders, spaced in any way, give the same result.
pub fold_lists_lem :
    (pre : Bytes) (s : Bool) (spaces : List Bool) (post : Bytes)
    → All (λ c. c ≢ b'(') pre
    → fold_lists 0 (pre ++ placeholders_before (s ∷ spaces) post)
      ≡ pre ++ (codes "(?)" ++ fold_lists 0 post)
fold_lists_lem [] s spaces post h = fold_lists_placeholders s spaces post
fold_lists_lem (c ∷ pre) s spaces post (h, hs) =
    fold_lists_other c (pre ++ placeholders_before (s ∷ spaces) post) (match_list_other c _ h)
    ∙ ap (◌∷◌ c) (fold_lists_lem pre s spaces post hs)
