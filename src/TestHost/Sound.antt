-- ===== src/TestHost/Sound.antt =====
-- `loop` of tools/PMBusTestHost/PMBusTestHost.ino: the line stays within its array, and there is one
-- reply for each request.
use psu_usb_to_pmbus.TestHost.Line.{receive, loop}
use psu_usb_to_pmbus.Base.{
  codes, refl, List, arith, if_cases, some, ℕ, ◌≢◌, length, ◌∷◌, suc, ◌≡◌, ◌==◌, if◌then◌else◌, ◌<◌,
  ap, ◌+◌, [], ltb, set, ◌∙◌, length-set, subst, All-set, sym, Bool-cases, inl, inr,
}
use psu_usb_to_pmbus.TestHost.Replies.{replied, Inline, error_text-IsReply, Replies}
use psu_usb_to_pmbus.TestHost.Received.{process_line-Answered}
use psu_usb_to_pmbus.TestHost.Answered.{Answered, printed-Answered}
use psu_usb_to_pmbus.TestHost.{TestHost, Wire, print}
use psu_usb_to_pmbus.TestHost.Text.{c_string}
use psu_usb_to_pmbus.TestHost.Request.{error_text}
use psu_usb_to_pmbus.TestHost.Line.{process_line}

c_string-Inline : (s : List ℕ) → Inline s → Inline (c_string s)
c_string-Inline [] h = tt
c_string-Inline (c ∷ s) h = if_cases Inline (c == 0) (λ e. tt) (λ e. (h.0, c_string-Inline s h.1))

-- How much of a line is stored behind a byte, and whether a reply is due with it.
abbrev pub stored_after : ℕ → ℕ → ℕ
stored_after c stored =
    if c == b'\r'
    then stored
    else if c == b'\n'
    then 0
    else if ltb (stored + 1) 160
    then stored + 1
    else 0

abbrev pub due_with : ℕ → ℕ → ℕ
due_with c stored =
    if c == b'\r'
    then 0
    else if c == b'\n'
    then (if stored == 0 then 0 else 1)
    else if ltb (stored + 1) 160
    then 0
    else 1

-- The replies that are due for bytes: one for every line that is not empty, and one for every 160
-- bytes without an end.
abbrev pub due : List ℕ → ℕ → ℕ
due [] stored = 0
due (c ∷ cs) stored = due_with c stored + due cs (stored_after c stored)

module _ {W : Type 0} ⦃bus : Wire W⦄ where
  -- What holds between two bytes from the serial port, after so many replies.
  pub record IsSound (count : ℕ) (h : TestHost W) : Type 0 where
    pub whole : length h.line ≡ 160
    pub room : h.line_length < 160
    pub inline : Inline h.line
    pub replies : Replies count h.output

  counted : (n k : ℕ) (g : TestHost W) → n ≡ k → IsSound n g → IsSound k g
  counted n k g e sound = subst (λ (m : ℕ). IsSound m g) e sound

  -- A reply that leaves the line closed.
  Answered-IsSound :
      (count : ℕ) (h g : TestHost W)
      → IsSound count h
      → Answered h g
      → IsSound (suc count) (record g { line_length = 0 })
  Answered-IsSound count h g sound a = record {
    whole = ap length a.line ∙ sound.whole;
    room = omega arith;
    inline = subst Inline (sym a.line) sound.inline;
    replies = subst (Replies (suc count)) (sym a.output) (replied sound.replies a.reply);
  }

  -- The line with one byte replaced.
  set-IsSound :
      (count c left : ℕ) (h : TestHost W)
      → IsSound count h
      → c ≢ b'\n'
      → left < 160
      → IsSound count (record h { line = set h.line h.line_length c; line_length = left })
  set-IsSound count c left h sound other room = record {
    whole = length-set h.line h.line_length c ∙ sound.whole;
    room = room;
    inline = All-set (λ v. v ≢ b'\n') h.line h.line_length c sound.inline other;
    replies = sound.replies;
  }

  -- A byte's outcome: the replies so far, and what is stored of the line.
  abbrev Counted : ℕ → ℕ → TestHost W → Type 0
  Counted count stored g = IsSound count g × (g.line_length ≡ stored)

  -- The end of a line.
  end-IsSound :
      (count : ℕ) (h : TestHost W)
      → IsSound count h
      → let closed = record h { line = set h.line h.line_length 0 } in
        let done =
          if h.line_length == 0 then closed else process_line (c_string closed.line) closed in
        IsSound (count + (if h.line_length == 0 then 0 else 1)) (record done { line_length = 0 })
  end-IsSound count h sound =
      let closed = record h { line = set h.line h.line_length 0 } in
      let text = c_string closed.line in
      let ready = set-IsSound count 0 0 h sound (omega arith) (omega arith) in
      let answer = process_line-Answered text closed (c_string-Inline closed.line ready.inline) in
      elim (Bool-cases (h.line_length == 0)) [
        | inl e ↦ rw e (counted count (count + 0) _ (omega arith) ready)
        | inr e ↦ rw e (
            counted (suc count) (count + 1) _ (omega arith) (
              Answered-IsSound count closed (process_line text closed)
                (set-IsSound count 0 h.line_length h sound (omega arith) sound.room) answer))
      ]

  receive-IsSound :
      (c count : ℕ) (h : TestHost W)
      → IsSound count h
      → Counted (count + due_with c h.line_length) (stored_after c h.line_length) (receive c h)
  unfolding receive
  receive-IsSound c count h sound =
      let too_long = error_text (some (codes "0")) (codes "RANGE") (codes "line_too_long") in
      let refused =
        error_text-IsReply (some (codes "0")) (codes "RANGE") (codes "line_too_long") (omega arith)
          (omega arith) (omega arith) in
      elim (Bool-cases (c == b'\r')) [
        | inl e ↦ rw e (counted count (count + 0) h (omega arith) sound, refl)
        | inr e ↦ elim (Bool-cases (c == b'\n')) [
          | inl k ↦ rw (e, k) (end-IsSound count h sound, refl)
          | inr k ↦ elim (Bool-cases (ltb (h.line_length + 1) 160)) [
            | inl l ↦
                rw (e, k, l)
                  (
                    counted count (count + 0) _ (omega arith) (
                        set-IsSound count c (h.line_length + 1) h sound (ground (arith, k))
                          (ground (arith, l))),
                    refl,
                  )
            | inr l ↦
                rw (e, k, l)
                  (
                    counted (suc count) (count + 1) _ (omega arith) (
                        Answered-IsSound count h (print too_long h) sound
                          (printed-Answered too_long h refused)),
                    refl,
                  )
          ]
        ]
      ]

  -- Whatever the bus answers and whatever bytes come from the serial port, the output grows by one
  -- reply, a line that begins with `OK` or `ERR`, for each line that is not empty and for each 160
  -- bytes of a line that has not ended; what is stored of the line stays within its array of 160
  -- bytes, with room for the terminator.
  pub loop-IsSound :
      (bytes : List ℕ) (count : ℕ) (h : TestHost W)
      → IsSound count h
      → IsSound (count + due bytes h.line_length) (loop bytes h)
  unfolding loop
  loop-IsSound [] count h sound = subst (λ (n : ℕ). IsSound n h) (omega arith) sound
  loop-IsSound (c ∷ cs) count h sound =
      let (next, stored) = receive-IsSound c count h sound in
      subst (λ (n : ℕ). IsSound n (loop cs (receive c h))) (omega (arith, ap (due cs) stored))
        (loop-IsSound cs (count + due_with c h.line_length) (receive c h) next)
