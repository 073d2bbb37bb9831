-- ===== src/App/Lines.antt =====
-- The lines of a terminal, as src/apps/server_main.c and src/apps/relay_main.c both treat what `fgets`
-- gives, and the stream that carries lines as commands over TCP.
use omni_socket.App.FileStream.{wrapped}
use omni_socket.Base.{
  ℕ, ◌^◌, ◌<◌, ◌≤◌, ◌≡◌, Bool, true, false, List, [], ◌∷◌, ◌++◌, Bytes, length, reverse, All, ◌==◌,
  ◌||◌, ◌&&◌, if◌then◌else◌,
}
use omni_socket.Wire.{msg_type_command}

-- The line without the newlines and carriage returns at its end, from the reversed line.
abbrev pub without_newlines : Bytes → Bytes
without_newlines [] = []
without_newlines (c ∷ cs) =
    let rest = without_newlines cs in if c == 10 || c == 13 then rest else c ∷ cs

abbrev pub stripped : Bytes → Bytes
stripped line = reverse (without_newlines (reverse line))

-- `strcmp(a, b) == 0`
abbrev pub eqb_bytes : Bytes → Bytes → Bool
eqb_bytes [] [] = true
eqb_bytes (a ∷ xs) (b ∷ ys) = (a == b) && eqb_bytes xs ys
eqb_bytes _ _ = false

-- `quit`
abbrev pub quit_text : Bytes
quit_text = 113 ∷ 117 ∷ 105 ∷ 116 ∷ []

-- A text that fits the 2048 bytes of a line with its final 0.
abbrev pub IsText : Bytes → Type 0
IsText text = (length text ≤ 2047) × All (λ c. (c == 0) ≡ false) text

-- The stream `s` carries these texts, each in a message COMMAND.
pub data CarriesTexts : List Bytes → Bytes → Type 0 where
  none_left : {s : Bytes} → s ≡ [] → CarriesTexts [] s
  text :
      {texts : List Bytes} {s : Bytes} (body s' : Bytes) (t1 t2 : ℕ)
      → t1 < 2 ^ 64
      → t2 < 2 ^ 64
      → IsText body
      → s ≡ wrapped t1 t2 msg_type_command body ++ s'
      → CarriesTexts texts s'
      → CarriesTexts (body ∷ texts) s
