-- ===== src/Server/Ascii/Tokens.antt =====
-- libmemcachedprotocol/ascii_handler.c: a line of words, one blank between them, taken apart.
use libmemcached.Prelude.{
  ℕ, zero, suc, ◌≤◌, ◌<◌, ◌≡◌, ◌≢◌, refl, ap, ◌∙◌, true, false, List, [], ◌∷◌, ◌++◌, some, length,
  drop, All, arith,
}
use libmemcached.Protocol.Numbers.{isspace, skip_spaces}
use libmemcached.Server.Ascii.{line_with, find_line, take_token, next_token, ascii_tokenize_command}

abbrev pub NotSpace : ℕ → Type 0
NotSpace c = isspace c ≡ false

abbrev pub IsWord : List ℕ → Type 0
IsWord w = (0 < length w) × All NotSpace w

abbrev pub separator : List (List ℕ) → ℕ
separator [] = b'\r'
separator (w ∷ ws) = b' '

-- The words of a line, with its carriage return.
abbrev pub joined : List (List ℕ) → List ℕ
joined [] = []
joined (w ∷ ws) = w ++ separator ws ∷ joined ws

find_line-more : (c : ℕ) (cs : List ℕ) → c ≢ 10 → find_line (c ∷ cs) ≡ line_with c (find_line cs)
unfolding find_line
find_line-more c cs ne = ground arith

find_line-plain :
    (l behind : List ℕ) → All (λ c. c ≢ 10) l → find_line (l ++ 10 ∷ behind) ≡ some (l, behind)
find_line-plain [] behind h = unfold find_line in refl
find_line-plain (c ∷ l) behind h =
    find_line-more c (l ++ 10 ∷ behind) h.0 ∙ ap (line_with c) (find_line-plain l behind h.1)

NotSpace-plain : (c : ℕ) → NotSpace c → c ≢ 10
NotSpace-plain c h e = ground arith

word-plain :
    (w : List ℕ) (rest : List ℕ)
    → All NotSpace w
    → All (λ c. c ≢ 10) rest
    → All (λ c. c ≢ 10) (w ++ rest)
word-plain [] rest h k = k
word-plain (c ∷ w) rest h k = (NotSpace-plain c h.0, word-plain w rest h.1 k)

separator-plain : (ws : List (List ℕ)) → separator ws ≢ 10
separator-plain [] e = absurd (omega arith)
separator-plain (w ∷ ws) e = absurd (omega arith)

joined-plain : (ws : List (List ℕ)) → All IsWord ws → All (λ c. c ≢ 10) (joined ws)
joined-plain [] h = tt
joined-plain (w ∷ ws) h = word-plain w _ h.0.1 (separator-plain ws, joined-plain ws h.1)

-- The line is found.
pub find_line-joined :
    (ws : List (List ℕ)) (behind : List ℕ)
    → All IsWord ws
    → find_line (joined ws ++ 10 ∷ behind) ≡ some (joined ws, behind)
find_line-joined ws behind h = find_line-plain (joined ws) behind (joined-plain ws h)

separator-isspace : (ws : List (List ℕ)) → isspace (separator ws) ≡ true
separator-isspace [] = refl
separator-isspace (w ∷ ws) = refl

take_token-word :
    (w : List ℕ) (c : ℕ) (rest : List ℕ)
    → All NotSpace w
    → isspace c ≡ true
    → take_token (w ++ c ∷ rest) ≡ (w, c ∷ rest)
unfolding take_token
take_token-word [] c rest h s = rw s
take_token-word (b ∷ w) c rest h s = rw (h.0, take_token-word w c rest h.1 s)

skip_spaces-word : (w rest : List ℕ) → IsWord w → skip_spaces (w ++ rest) ≡ w ++ rest
unfolding skip_spaces
skip_spaces-word [] rest h = absurd (omega (arith, h.0))
skip_spaces-word (c ∷ w) rest h = rw (h.1.0)

next_token-word :
    (more : List ℕ → List (List ℕ)) (w : List ℕ) (c : ℕ) (rest : List ℕ)
    → IsWord w
    → isspace c ≡ true
    → next_token more (w ++ c ∷ rest) ≡ w ∷ more rest
next_token-word more [] c rest h s = absurd (omega (arith, h.0))
next_token-word more (b ∷ w) c rest h s =
    ap (λ t. t.0 ∷ more (drop 1 t.1)) (take_token-word (b ∷ w) c rest h.1 s)

-- The words come back, if there is room for them.
pub ascii_tokenize_command-joined :
    (size : ℕ) (ws : List (List ℕ))
    → length ws ≤ size
    → All IsWord ws
    → ascii_tokenize_command size (joined ws) ≡ ws
unfolding ascii_tokenize_command
ascii_tokenize_command-joined zero [] h k = refl
ascii_tokenize_command-joined zero (w ∷ ws) h k = absurd (omega arith)
ascii_tokenize_command-joined (suc size) [] h k = unfold skip_spaces in refl
ascii_tokenize_command-joined (suc size) (w ∷ ws) h k =
    ap (next_token (ascii_tokenize_command size)) (skip_spaces-word w _ k.0)
    ∙ next_token-word (ascii_tokenize_command size) w _ _ k.0 (separator-isspace ws)
    ∙ ap (◌∷◌ w) (ascii_tokenize_command-joined size ws (omega arith) k.1)
