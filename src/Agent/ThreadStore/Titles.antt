-- ===== src/Agent/ThreadStore/Titles.antt =====
-- thread_store.go: the functions on texts.
-- A Go string is its bytes. A text stands for its bytes in UTF-8, and a byte from 0x80 on that is no part
-- of a character stands as the character U+13000 plus the byte; texts that hold one of these
-- hieroglyphs, U+13080 to U+130FF, themselves are left aside. A cut inside a character leaves such bytes.
use Prim.Native.Char.{Char, code, len_utf8}
use Prim.Native.String.{char_at}
use vibe_deck.Prelude.{
  ℕ, zero, suc, ◌+◌, ◌-◌, ◌*◌, ◌/◌, ◌%◌, ◌^◌, ◌==◌, ◌&&◌, Bool, Option, some, List, [], ◌∷◌, String,
  str_eq, ltb, leb, if◌then◌else◌,
}
use vibe_deck.GoMap.{GoMap, lookup}
use vibe_deck.Text.{trim_space}
use vibe_deck.Agent.ThreadStore.State.{Value, text}

-- The characters for the bytes from 0x80 and from 0xC0 on; each takes four bytes, by which `char_at`
-- counts.
abbrev continuing : String
continuing = "𓂀𓂁𓂂𓂃𓂄𓂅𓂆𓂇𓂈𓂉𓂊𓂋𓂌𓂍𓂎𓂏𓂐𓂑𓂒𓂓𓂔𓂕𓂖𓂗𓂘𓂙𓂚𓂛𓂜𓂝𓂞𓂟𓂠𓂡𓂢𓂣𓂤𓂥𓂦𓂧𓂨𓂩𓂪𓂫𓂬𓂭𓂮𓂯𓂰𓂱𓂲𓂳𓂴𓂵𓂶𓂷𓂸𓂹𓂺𓂻𓂼𓂽𓂾𓂿"

abbrev leading : String
leading = "𓃀𓃁𓃂𓃃𓃄𓃅𓃆𓃇𓃈𓃉𓃊𓃋𓃌𓃍𓃎𓃏𓃐𓃑𓃒𓃓𓃔𓃕𓃖𓃗𓃘𓃙𓃚𓃛𓃜𓃝𓃞𓃟𓃠𓃡𓃢𓃣𓃤𓃥𓃦𓃧𓃨𓃩𓃪𓃫𓃬𓃭𓃮𓃯𓃰𓃱𓃲𓃳𓃴𓃵𓃶𓃷𓃸𓃹𓃺𓃻𓃼𓃽𓃾𓃿"

abbrev pub raw_byte : ℕ → Char
raw_byte b =
    if ltb b 192 then char_at continuing (4 * (b - 128)) else char_at leading (4 * (b - 192))

abbrev pub is_raw : Char → Bool
is_raw c = leb 77952 (code c) && ltb (code c) 78080

abbrev pub width_of : Char → ℕ
width_of c = if is_raw c then 1 else len_utf8 c

-- len(s)
unfoldable pub byte_length : String → ℕ
byte_length String.[] = 0
byte_length (String.◌∷◌ c s) = width_of c + byte_length s

-- The last `n` bytes of the UTF-8 form of a character with the number `u`.
abbrev pub tail_bytes : ℕ → ℕ → List ℕ
tail_bytes zero u = []
tail_bytes (suc n) u = (128 + u / 64 ^ n % 64) ∷ tail_bytes n u

-- The bytes of a character that takes more than one.
abbrev pub utf8_bytes : Char → List ℕ
utf8_bytes c =
    let u = code c in
    if len_utf8 c == 2
    then (192 + u / 64) ∷ tail_bytes 1 u
    else if len_utf8 c == 3
    then (224 + u / 4096) ∷ tail_bytes 2 u
    else (240 + u / 262144) ∷ tail_bytes 3 u

abbrev pub first_bytes : ℕ → List ℕ → String
first_bytes zero bs = ""
first_bytes (suc n) [] = ""
first_bytes (suc n) (b ∷ bs) = String.◌∷◌ (raw_byte b) (first_bytes n bs)

-- s[:n]
unfoldable pub byte_prefix : ℕ → String → String
byte_prefix n String.[] = ""
byte_prefix n (String.◌∷◌ c s) =
    let rest = byte_prefix (n - width_of c) s in
    if leb (width_of c) n then String.◌∷◌ c rest else first_bytes n (utf8_bytes c)

-- strings.ReplaceAll(s, "\r\n", "\n")
unfoldable pub replace_crlf : String → String
replace_crlf String.[] = ""
replace_crlf (String.◌∷◌ c String.[]) = String.◌∷◌ c ""
replace_crlf (String.◌∷◌ c (String.◌∷◌ d s)) =
    let rest = replace_crlf (String.◌∷◌ d s) in
    if code c == 13 && code d == 10 then rest else String.◌∷◌ c rest

abbrev add_to_first : Char → List String → List String
add_to_first c [] = (String.◌∷◌ c "") ∷ []
add_to_first c (w ∷ ws) = (String.◌∷◌ c w) ∷ ws

-- strings.Split(s, "\n")
unfoldable pub split_lines : String → List String
split_lines String.[] = "" ∷ []
split_lines (String.◌∷◌ c s) =
    let rest = split_lines s in if code c == 10 then "" ∷ rest else add_to_first c rest

unfoldable pub first_of : List String → String
first_of [] = ""
first_of (line ∷ rest) =
    let later = first_of rest in if str_eq (trim_space line) "" then later else trim_space line

unfoldable pub first_line : String → String
unfolding replace_crlf split_lines first_of
first_line value = first_of (split_lines (replace_crlf value))

abbrev pub new_thread_title : String
new_thread_title = "새 스레드"

unfoldable pub normalize_thread_title : String → String
normalize_thread_title title =
    let t = trim_space (first_line title) in
    if str_eq t "" then new_thread_title else if ltb 72 (byte_length t) then byte_prefix 72 t else t

unfoldable pub first_non_empty_text : List String → String
first_non_empty_text [] = ""
first_non_empty_text (value ∷ rest) =
    let later = first_non_empty_text rest in
    let v = trim_space value in
    if str_eq v "" then later else if ltb 160 (byte_length v) then byte_prefix 160 v else v

unfoldable pub humanize_event_kind : String → String
humanize_event_kind kind =
    if str_eq kind "prompt_submitted"
    then "프롬프트 제출"
    else if str_eq kind "prompt_accepted"
    then "작업 시작"
    else if str_eq kind "patch_ready"
    then "패치 준비 완료"
    else if str_eq kind "patch_apply_requested"
    then "패치 적용 요청"
    else if str_eq kind "patch_applied"
    then "패치 적용 결과"
    else if str_eq kind "run_requested"
    then "실행 요청"
    else if str_eq kind "run_finished"
    then "실행 결과"
    else kind

abbrev pub text_or : String → Option Value → String
text_or fallback (some (text t)) = if str_eq (trim_space t) "" then fallback else trim_space t
text_or fallback _ = fallback

unfoldable pub value_from_data : GoMap Value → String → String → String
value_from_data data_of key fallback = text_or fallback (lookup key data_of)
