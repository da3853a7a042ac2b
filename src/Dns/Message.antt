-- ===== src/Dns/Message.antt =====
-- The records and the whole message of src/dns.c: every parser ends and stays in the packet.
use myclib.Prelude.{
  ◌<◌, ℕ, zero, suc, ◌+◌, ◌/◌, ◌%◌, ◌^◌, ◌≤◌, ◌≡◌, refl, List, ltb, leb, ◌==◌, length, arith, inl,
  inr, Bool-cases, All, ◌&&◌, ◌||◌,
}
use myclib.Dns.{
  read16, read, Packet, Rr, RespInfo, parse_name, parse_question, parse_rr, question_at,
  dns_get_question, skip_questions, rr_at, dns_get_answer, is_valid_dns_resp, address, answers,
  resp_info, dns_resp_parse,
}
use myclib.Outcome.{fault, Returns, Returns-bind, Returns-if}
use myclib.Dns.Reads.{octets16, read_bytes-ok, read16-ok, read32-ok}
use myclib.Dns.Safety.{Moved, Entered, parse_name-Returns}

module _ (pkt : Packet) where
  parse_question-Returns :
      (ptr : ℕ) → ptr ≤ pkt.len → Returns (Entered pkt ptr) (parse_question pkt ptr)
  unfolding parse_question
  parse_question-Returns ptr h =
      Returns-bind _ (Entered pkt ptr) (parse_name pkt ptr) _ (parse_name-Returns pkt ptr h)
        λ (p, name) (moved, short).
          Returns-if (Entered pkt ptr) (ltb pkt.len (p + 4)) _ _ (λ e. tt)
            λ e.
              rw (read16-ok pkt p (ground arith), read16-ok pkt (p + 2) (ground arith))
                (ground arith)

  -- the data of a record lies in the packet
  abbrev pub Fits : Rr → Type 0
  Fits a = a.payload + a.len ≤ pkt.len

  parse_rr-Returns :
      (ptr : ℕ) → ptr ≤ pkt.len → Returns (λ (p, a). Moved pkt ptr p × Fits a) (parse_rr pkt ptr)
  unfolding parse_rr
  parse_rr-Returns ptr h =
      let Q : ℕ × Rr → Type 0 = λ (p, a). Moved pkt ptr p × Fits a in
      Returns-bind _ Q (parse_name pkt ptr) _ (parse_name-Returns pkt ptr h)
        λ (p, name) (moved, short).
          Returns-if Q (ltb pkt.len (p + 10)) _ _ (λ e. tt)
            λ e.
              rw
                (
                  read16-ok pkt p (ground arith),
                  read16-ok pkt (p + 2) (ground arith),
                  read32-ok pkt (p + 4) (ground arith),
                  read16-ok pkt (p + 8) (ground arith),
                )
                (Returns-if Q (ltb pkt.len (p + 10 + octets16 pkt (p + 8))) _ _ (λ e₁. tt)
                  λ e₁. ground arith)

  abbrev Any : {A : Type 0} → A → Type 0
  Any a = Unit

  question_at-Returns : (n ptr : ℕ) → ptr ≤ pkt.len → Returns Any (question_at pkt n ptr)
  unfolding question_at
  question_at-Returns zero ptr h =
      Returns-bind (Entered pkt ptr) Any (parse_question pkt ptr) _ (parse_question-Returns ptr h)
        λ (p, q) moved. tt
  question_at-Returns (suc n) ptr h =
      Returns-bind (Entered pkt ptr) Any (parse_question pkt ptr) _ (parse_question-Returns ptr h)
        λ (p, q) moved. question_at-Returns n p moved.1

  skip_questions-Returns :
      (n ptr : ℕ) → ptr ≤ pkt.len → Returns (λ p. p ≤ pkt.len) (skip_questions pkt n ptr)
  unfolding skip_questions
  skip_questions-Returns zero ptr h = h
  skip_questions-Returns (suc n) ptr h =
      Returns-bind (Entered pkt ptr) _ (parse_question pkt ptr) _ (parse_question-Returns ptr h)
        λ (p, q) moved. skip_questions-Returns n p moved.1

  rr_at-Returns : (n ptr : ℕ) → ptr ≤ pkt.len → Returns Fits (rr_at pkt n ptr)
  unfolding rr_at
  rr_at-Returns zero ptr h =
      Returns-bind (λ (p, a). Moved pkt ptr p × Fits a) Fits (parse_rr pkt ptr) _
        (parse_rr-Returns ptr h) λ (p, a) (moved, fits). fits
  rr_at-Returns (suc n) ptr h =
      Returns-bind (λ (p, a). Moved pkt ptr p × Fits a) Fits (parse_rr pkt ptr) _
        (parse_rr-Returns ptr h) λ (p, a) (moved, fits). rr_at-Returns n p moved.1

  -- With the whole header in the packet `dns_get_question` ends and reads no byte outside it.
  dns_get_question-Returns : (i : ℕ) → 12 ≤ pkt.len → Returns Any (dns_get_question pkt i)
  unfolding dns_get_question
  dns_get_question-Returns i h = rw (read16-ok pkt 4 (omega arith)) (
      Returns-if Any (leb (octets16 pkt 4) i || ltb pkt.len 12) _ _ (λ e. tt)
        λ e. question_at-Returns i 12 h)

  -- With the whole header in the packet `dns_get_answer` ends, reads no byte outside the packet, and
  -- the data of the record that it returns lies in the packet.
  pub dns_get_answer-Returns : (i : ℕ) → 12 ≤ pkt.len → Returns Fits (dns_get_answer pkt i)
  unfolding dns_get_answer
  dns_get_answer-Returns i h =
      rw (read16-ok pkt 4 (omega arith), read16-ok pkt 6 (omega arith))
        (Returns-if Fits (leb (octets16 pkt 6) i || ltb pkt.len 12) _ _ (λ e. tt)
          λ e.
            Returns-bind _ Fits (skip_questions pkt (octets16 pkt 4) 12) _
              (skip_questions-Returns (octets16 pkt 4) 12 h) λ p fits. rr_at-Returns i p fits)

  read16-short : (i : ℕ) → pkt.len < i + 2 → read16 pkt i ≡ fault
  unfolding read16 read
  read16-short i h = ground arith

  -- On a packet of less than six bytes `dns_get_question` and `dns_get_answer` read a byte outside the
  -- packet.
  pub dns_get_question-short :
      (i : ℕ) → pkt.len < 6 → (dns_get_question pkt i ≡ fault) × (dns_get_answer pkt i ≡ fault)
  unfolding dns_get_question dns_get_answer
  dns_get_question-short i h = let e = read16-short 4 (omega (arith, h)) in (rw e refl, rw e refl)

  -- every address has four octets
  abbrev pub Ipv4 : List (List ℕ) → Type 0
  Ipv4 = All (λ a. length a ≡ 4)

  answers-Returns : (n i : ℕ) → 12 ≤ pkt.len → Returns Ipv4 (answers pkt n i)
  unfolding answers address
  answers-Returns zero i h = tt
  answers-Returns (suc n) i h =
      Returns-bind Fits Ipv4 (dns_get_answer pkt i) _ (dns_get_answer-Returns i h) λ a fits.
        elim (Bool-cases (a.len == 4)) [
          | inl e ↦
              simp (e, read_bytes-ok pkt 4 a.payload (ground arith))
                (Returns-bind Ipv4 Ipv4 (answers pkt n (i + 1)) _ (answers-Returns n (i + 1) h)
                  λ rest four. (refl, four))
          | inr e ↦ simp e (
              Returns-bind Ipv4 Ipv4 (answers pkt n (i + 1)) _ (answers-Returns n (i + 1) h)
                λ rest four. four)
        ]

  resp_info-Returns : 12 ≤ pkt.len → Returns (λ info. Ipv4 info.ipv4) (resp_info pkt)
  unfolding resp_info
  resp_info-Returns h =
      let Q : RespInfo → Type 0 = λ info. Ipv4 info.ipv4 in
      rw (read16-ok pkt 6 (omega arith)) (
        Returns-bind Any Q (dns_get_question pkt 0) _ (dns_get_question-Returns 0 h) λ q any.
          Returns-bind Ipv4 Q (answers pkt (octets16 pkt 6) 0) _
            (answers-Returns (octets16 pkt 6) 0 h) λ ipv4 four. four)

  -- `dns_resp_parse` ends on every packet, of any length and with any bytes: it reads no byte outside
  -- the packet, it writes no byte outside a name, and every address that it reports has four octets.
  pub dns_resp_parse-Returns : Returns (λ info. Ipv4 info.ipv4) (dns_resp_parse pkt)
  unfolding dns_resp_parse is_valid_dns_resp
  dns_resp_parse-Returns =
      let Q : RespInfo → Type 0 = λ info. Ipv4 info.ipv4 in
      elim (Bool-cases (ltb pkt.len 12)) [
        | inl e ↦ rw e tt
        | inr e ↦
            rw (e, read16-ok pkt 2 (ground arith))
              (Returns-if Q ((octets16 pkt 2 / 2 ^ 15) % 2 == 1 && octets16 pkt 2 % 2 ^ 4 == 0) _ _
                (λ e₁. resp_info-Returns (ground arith)) (λ e₁. tt))
      ]
