-- ===== src/Telegram/Client.antt =====
-- src/lib/clients/telegramClient.ts: the escape of MarkdownV2, the split of long texts, and the post
-- with its retries. A text is the list of its characters. `editMessageText` and `pinChatMessage` are
-- one post each; the rest of a request's body is left out.
pub mod Chunks
pub mod Posting
pub mod Retries
use Prim.Native.Char.{Char, code}
use neurodegen.Common.{
  ℕ, suc, zero, ◌+◌, ◌*◌, Bool, true, false, not, ◌&&◌, Option, none, some, List, [], ◌∷◌, ◌++◌,
  leb, ltb, ◌==◌, length, any, if◌then◌else◌, get_or, is_some,
}
use neurodegen.Common.Calls.{Act, perform}

abbrev pub Text : Type 0
Text = List Char

-- The codes of '_', '*', '[', ']', '(', ')', '~', '`', '>', '#', '+', '-', '=', '|', '{', '}', '.', '!'
abbrev pub markdown_v2_reserved : List ℕ
markdown_v2_reserved =
    95 ∷ 42 ∷ 91 ∷ 93 ∷ 40 ∷ 41 ∷ 126 ∷ 96 ∷ 62 ∷ 35 ∷ 43 ∷ 45 ∷ 61 ∷ 124 ∷ 123 ∷ 125 ∷ 46 ∷ 33 ∷ []

unfoldable pub is_reserved : Char → Bool
is_reserved c = any (λ n. code c == n) markdown_v2_reserved

abbrev pub backslash : Char
backslash = "\\"

unfoldable pub escape_markdown_v2 : Text → Text
escape_markdown_v2 [] = []
escape_markdown_v2 (c ∷ cs) =
    let rest = escape_markdown_v2 cs in if is_reserved c then backslash ∷ c ∷ rest else c ∷ rest

-- `slice(0, n)` and `slice(n)`
abbrev pub slice_before : ℕ → Text → Text
slice_before zero cs = []
slice_before (suc n) [] = []
slice_before (suc n) (c ∷ cs) = c ∷ slice_before n cs

abbrev pub slice_from : ℕ → Text → Text
slice_from zero cs = cs
slice_from (suc n) [] = []
slice_from (suc n) (c ∷ cs) = slice_from n cs

abbrev pub is_newline : Char → Bool
is_newline c = code c == 10

abbrev one_later : Option ℕ → Option ℕ
one_later none = none
one_later (some n) = some (suc n)

abbrev first_if : Bool → Option ℕ → Option ℕ
first_if b (some n) = some n
first_if b none = if b then some 0 else none

-- `lastIndexOf('\n', limit)`
abbrev pub last_newline : ℕ → Text → Option ℕ
last_newline n [] = none
last_newline zero (c ∷ cs) = if is_newline c then some 0 else none
last_newline (suc n) (c ∷ cs) = first_if (is_newline c) (one_later (last_newline n cs))

-- `if (cut <= 0) cut = limit`
abbrev pub cut_of : ℕ → Option ℕ → ℕ
cut_of limit none = limit
cut_of limit (some zero) = limit
cut_of limit (some (suc n)) = suc n

-- `replace(/^\n+/, '')`
abbrev pub strip_newlines : Text → Text
strip_newlines [] = []
strip_newlines (c ∷ cs) = let rest = strip_newlines cs in if is_newline c then rest else c ∷ cs

abbrev pub last_chunk : Text → List Text
last_chunk [] = []
last_chunk (c ∷ cs) = (c ∷ cs) ∷ []

-- The loop, on fuel.
unfoldable pub chunks_on : ℕ → ℕ → Text → List Text
chunks_on zero limit remaining = last_chunk remaining
chunks_on (suc fuel) limit remaining =
    let cut = cut_of limit (last_newline limit remaining) in
    let rest = chunks_on fuel limit (strip_newlines (slice_from cut remaining)) in
    if leb (length remaining) limit then last_chunk remaining else slice_before cut remaining ∷ rest

unfoldable pub chunk_message : ℕ → Text → List Text
chunk_message limit text =
    let chunks = chunks_on (length text) limit text in
    if leb (length text) limit then text ∷ [] else chunks

abbrev pub max_message_length : ℕ
max_message_length = 4096
