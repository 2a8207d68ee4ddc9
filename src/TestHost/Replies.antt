-- ===== src/TestHost/Replies.antt =====
-- The replies that tools/PMBusTestHost/PMBusTestHost.ino prints: lines, one for each request.
use psu_usb_to_pmbus.TestHost.Transaction.{ok_text}
use psu_usb_to_pmbus.Base.{
  codes, All, All-append, Bool, Bool-cases, List, Option, [], ap, append_assoc, arith, false,
  get_or, if_cases, inl, inr, ltb, none, some, suc, sym, true, zero, ℕ, ◌%◌, ◌++◌, ◌+◌, ◌/◌, ◌==◌,
  ◌^◌, ◌∙◌, ◌∷◌, ◌≡◌, ◌≢◌,
}
use psu_usb_to_pmbus.TestHost.Text.{
  strtok, after_word, token_of, skip_blanks, word, decimal_digits, decimal,
}
use psu_usb_to_pmbus.TestHost.Request.{error_text, new_line, sequence_or_zero, hex_text, wire_error}

-- Text within a line.
abbrev pub Inline : List ℕ → Type 0
Inline = All (λ c. c ≢ b'\n')

abbrev pub kind_text : Bool → List ℕ
kind_text true = codes "OK "
kind_text false = codes "ERR "

-- A reply is one line, with its kind in front.
pub record IsReply (text : List ℕ) : Type 0 where
  pub ok : Bool
  pub body : List ℕ
  pub whole : text ≡ kind_text ok ++ (body ++ new_line)
  pub one_line : Inline body

-- An output of so many replies.
pub data Replies : ℕ → List ℕ → Type 0 where
  silent : Replies 0 []
  replied :
      {n : ℕ} {before text : List ℕ}
      → Replies n before
      → IsReply text
      → Replies (suc n) (before ++ text)

abbrev pub Said : Option (List ℕ) → Type 0
Said none = Unit
Said (some text) = Inline text

-- Words of a line.
skip_blanks-Inline : (s : List ℕ) → Inline s → Inline (skip_blanks s)
skip_blanks-Inline [] h = tt
skip_blanks-Inline (c ∷ s) h = elim (Bool-cases (c == b' ')) [
  | inl e ↦ rw e (skip_blanks-Inline s h.1)
  | inr e ↦ rw e h
]

word-Inline : (s : List ℕ) → Inline s → Inline (word s)
word-Inline [] h = tt
word-Inline (c ∷ s) h = elim (Bool-cases (c == b' ')) [
  | inl e ↦ rw e tt
  | inr e ↦ rw e (h.0, word-Inline s h.1)
]

after_word-Inline : (s : List ℕ) → Inline s → Inline (after_word s)
after_word-Inline [] h = tt
after_word-Inline (c ∷ s) h = elim (Bool-cases (c == b' ')) [
  | inl e ↦ rw e h.1
  | inr e ↦ rw e (after_word-Inline s h.1)
]

token_of-Inline : (s : List ℕ) → Inline s → Said (token_of s).text × Inline (token_of s).rest
token_of-Inline [] h = (tt, tt)
token_of-Inline (c ∷ s) h = (word-Inline (c ∷ s) h, after_word-Inline (c ∷ s) h)

pub strtok-Inline : (s : List ℕ) → Inline s → Said (strtok s).text × Inline (strtok s).rest
unfolding strtok
strtok-Inline s h = token_of-Inline (skip_blanks s) (skip_blanks-Inline s h)

spaced-Inline : (xs ys : List ℕ) → Inline xs → Inline ys → Inline (xs ++ b' ' ∷ ys)
spaced-Inline xs ys h k = All-append (λ c. c ≢ b'\n') xs (b' ' ∷ ys) h (omega arith, k)

sequence_or_zero-Inline : (o : Option (List ℕ)) → Said o → Inline (sequence_or_zero o)
sequence_or_zero-Inline none h = omega arith
sequence_or_zero-Inline (some text) h = h

-- The three replies.
pub error_text-IsReply :
    (sequence : Option (List ℕ)) (code detail : List ℕ)
    → Said sequence
    → Inline code
    → Inline detail
    → IsReply (error_text sequence code detail)
error_text-IsReply sequence code detail s c d = record {
  ok = false;
  body = sequence_or_zero sequence ++ b' ' ∷ (code ++ b' ' ∷ detail);
  whole =
      ap (λ (o : List ℕ). codes "ERR " ++ o)
        (ap (λ (o : List ℕ). sequence_or_zero sequence ++ b' ' ∷ o)
            (sym (append_assoc code (b' ' ∷ detail) new_line))
          ∙ sym
              (append_assoc (sequence_or_zero sequence) (b' ' ∷ (code ++ b' ' ∷ detail)) new_line));
  one_line =
      spaced-Inline (sequence_or_zero sequence) (code ++ b' ' ∷ detail)
        (sequence_or_zero-Inline sequence s) (spaced-Inline code detail c d);
}

pub ok_text-IsReply :
    (sequence text : List ℕ) → Inline sequence → Inline text → IsReply (ok_text sequence text)
ok_text-IsReply sequence text s t = record {
  ok = true;
  body = sequence ++ b' ' ∷ text;
  whole =
      ap (λ (o : List ℕ). codes "OK " ++ o) (sym (append_assoc sequence (b' ' ∷ text) new_line));
  one_line = spaced-Inline sequence text s t;
}

-- The digits of a reply.
get_or-Inline : (xs : List ℕ) (i : ℕ) → Inline xs → get_or xs i 0 ≢ b'\n'
get_or-Inline [] i h = omega arith
get_or-Inline (x ∷ xs) zero h = h.0
get_or-Inline (x ∷ xs) (suc i) h = get_or-Inline xs i h.1

pub hex_text-Inline : (bytes : List ℕ) → Inline (hex_text bytes)
hex_text-Inline [] = tt
hex_text-Inline (byte ∷ bytes) =
    let digits = codes "0123456789ABCDEF" in
    (
      get_or-Inline digits (byte / 2 ^ 4) (omega arith),
      (get_or-Inline digits (byte % 2 ^ 4) (omega arith), hex_text-Inline bytes),
    )

decimal_digits-Inline :
    (fuel n : ℕ) (text : List ℕ) → Inline text → Inline (decimal_digits fuel n text)
decimal_digits-Inline zero n text h = (omega arith, h)
decimal_digits-Inline (suc fuel) n text h =
    if_cases (λ (o : List ℕ). Inline o) (ltb n 10) (λ e. (omega arith, h))
      (λ e. decimal_digits-Inline fuel (n / 10) ((b'0' + n % 10) ∷ text) (omega arith, h))

pub decimal-Inline : (n : ℕ) → Inline (decimal n)
unfolding decimal
decimal-Inline n = decimal_digits-Inline n n [] tt

pub wire_error-Inline : (status : ℕ) → Inline (wire_error status)
wire_error-Inline status =
    if_cases Inline (status == 2) (λ e. omega arith)
      (λ e. if_cases Inline (status == 3) (λ k. omega arith) (λ k. omega arith))
