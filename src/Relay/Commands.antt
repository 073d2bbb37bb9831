-- ===== src/Relay/Commands.antt =====
-- src/apps/relay_main.c: the lines of the control thread.
use omni_socket.Base.{
  ℕ, zero, suc, Bool, [], ◌∷◌, Bytes, Option, none, some, ltb, leb, ◌==◌, ◌&&◌, if◌then◌else◌,
  length, ◌≤◌, ◌<◌, arith, Bool-cases, inl, inr,
}
use omni_socket.App.Numbers.{is_space, skip_space, scan_unsigned}
use omni_socket.App.Lines.{stripped, eqb_bytes, quit_text}

pub data Command : Type 0 where
  quit show empty unknown : Command
  set : Bytes → ℕ → Command

-- `%63s` of scanf: at most so many bytes up to a space, and what follows.
abbrev pub scan_word : ℕ → Bytes → Bytes × Bytes
scan_word zero cs = ([], cs)
scan_word (suc n) [] = ([], [])
scan_word (suc n) (c ∷ cs) =
    let (word, rest) = scan_word n cs in if is_space c then ([], c ∷ cs) else (c ∷ word, rest)

-- Both conversions must succeed.
abbrev pub both : Bytes → Option ℕ → Option (Bytes × ℕ)
both [] port = none
both (c ∷ word) none = none
both (c ∷ word) (some port) = some (c ∷ word, port)

-- The two conversions of `"set %63s %u"`, where both succeed.
abbrev pub scan_target : Bytes → Option (Bytes × ℕ)
scan_target cs =
    let (ip, rest) = scan_word 63 (skip_space cs) in both ip (scan_unsigned (skip_space rest))

-- `sscanf(line, "set %63s %u", ip, &port)` where it fills both.
abbrev pub scan_set : Bytes → Option (Bytes × ℕ)
scan_set (a ∷ b ∷ c ∷ cs) = if a == 115 && b == 101 && c == 116 then scan_target cs else none
scan_set _ = none

-- The check of the port.
abbrev pub set_command : Option (Bytes × ℕ) → Command
set_command none = unknown
set_command (some (ip, port)) = if ltb 0 port && leb port 65535 then set ip port else unknown

-- The command on a line that `fgets` gave.
unfoldable pub command_of : Bytes → Command
command_of text =
    let line = stripped text in
    if eqb_bytes line []
    then empty
    else if eqb_bytes line quit_text
    then quit
    else if eqb_bytes line (115 ∷ 104 ∷ 111 ∷ 119 ∷ [])
    then show
    else set_command (scan_set line)

scan_word-length : (n : ℕ) (cs : Bytes) → length ((scan_word n cs).0) ≤ n
scan_word-length zero cs = omega arith
scan_word-length (suc n) [] = omega arith
scan_word-length (suc n) (c ∷ cs) = let ih = scan_word-length n cs in ground arith

-- The argument of a command `set` that the check lets through.
abbrev pub Target : Command → Type 0
Target (set ip port) = (0 < length ip) × (length ip ≤ 63) × (0 < port) × (port ≤ 65535)
Target other = Unit {0}

abbrev Word : Option (Bytes × ℕ) → Type 0
Word none = Unit {0}
Word (some (ip, port)) = (0 < length ip) × (length ip ≤ 63)

both-Word : (ip : Bytes) (port : Option ℕ) → length ip ≤ 63 → Word (both ip port)
both-Word ip port short = ground arith

scan_target-Word : (cs : Bytes) → Word (scan_target cs)
scan_target-Word cs = both-Word _ _ (scan_word-length 63 (skip_space cs))

scan_set-Word : (cs : Bytes) → Word (scan_set cs)
scan_set-Word [] = ground arith
scan_set-Word (a ∷ []) = ground arith
scan_set-Word (a ∷ b ∷ []) = ground arith
scan_set-Word (a ∷ b ∷ c ∷ cs) = elim (Bool-cases (a == 115 && b == 101 && c == 116)) [
  | inl named ↦ rw named (scan_target-Word cs)
  | inr other ↦ rw other (ground arith)
]

set_command-Target : (r : Option (Bytes × ℕ)) → Word r → Target (set_command r)
set_command-Target r word = ground arith

chosen-Target :
    (a b c : Bool) (k : Command)
    → Target k
    → Target (if a then empty else if b then quit else if c then show else k)
chosen-Target a b c k target = ground arith

-- Whatever line the control thread reads, a target that it hands to `relay_set_target` has an address of 1 to 63 bytes,
-- so that its array and that of the state hold it whole with the final 0, and a port from 1 to 65535, so that its
-- conversion to uint16_t loses nothing.
pub command_of-Target : (line : Bytes) → Target (command_of line)
unfolding command_of
command_of-Target line =
    chosen-Target _ _ _ _ (set_command-Target _ (scan_set-Word (stripped line)))
