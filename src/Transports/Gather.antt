-- ===== src/Transports/Gather.antt =====
-- How a reply of a simulated transport is collected.
use ts_c_riocpp.Common.{
  ℕ, zero, suc, ◌+◌, ◌-◌, ◌≤◌, ◌<◌, ◌≡◌, ◌⊎◌, inl, inr, refl, sym, ap, ◌∙◌, List, [], ◌∷◌, ◌++◌,
  append-nil, append_assoc, true, false, u64, ltb, lt→ltb, leb, ==_false, arith, length,
  length-append, take, drop,
}
use ts_c_riocpp.Modbus.Exceptions.{Outcome, ok, M, ◌>>=◌, >>=-ok}
use ts_c_riocpp.Crio.Mpu.{ResponseLength, unknown_length, total}
use ts_c_riocpp.Transports.{BusMethods, World, on_line, decide, gather}
use ts_c_riocpp.Transports.Simulated.{SimulatedTransport, take_response, read, simulated_line}

take-length {ℓ} : {A : Type ℓ} (xs ys : List A) → take (length xs) (xs ++ ys) ≡ xs
take-length [] ys = refl
take-length (x ∷ xs) ys = ap (λ l. x ∷ l) (take-length xs ys)

drop-length {ℓ} : {A : Type ℓ} (xs ys : List A) → drop (length xs) (xs ++ ys) ≡ ys
drop-length [] ys = refl
drop-length (x ∷ xs) ys = drop-length xs ys

module _ {D : Type 0} where
  -- The line behind a read of `n` bytes that leaves `later`.
  abbrev pub behind : SimulatedTransport D → ℕ → List ℕ → SimulatedTransport D
  behind t n later = record t { response = later; bytes_read = u64 (t.bytes_read + n) }

  take_response_lem :
      (q later : List ℕ) (t : SimulatedTransport D)
      → t.response ≡ q ++ later
      → take_response (length q) t ≡ ok q (behind t (length q) later)
  unfolding take_response
  take_response_lem q [] t e =
      let whole : t.response ≡ q = e ∙ append-nil q in rw whole (rw (ltb-self (length q)) refl)
    where
      ltb-self : (n : ℕ) → ltb n n ≡ false
      ltb-self n = ground arith
  take_response_lem q (y ∷ later) t e = rw e (
      rw
        (lt→ltb (length q) (length (q ++ (y ∷ later)))
          (omega (arith, length-append {0} q (y ∷ later))))
        (rw (take-length q (y ∷ later), drop-length q (y ∷ later)) refl))

  read_lem :
      (q later : List ℕ) (t : SimulatedTransport D)
      → t.response ≡ q ++ later
      → 0 < length q
      → read (length q) t ≡ ok q (behind t (length q) later)
  unfolding read
  read_lem [] later t e h = absurd (omega arith)
  read_lem (x ∷ q) later t e h =
      rw (==_false (length (x ∷ q)) 0 (omega arith)) (take_response_lem (x ∷ q) later t e)

  read_one :
      (x : ℕ) (later : List ℕ) (t : SimulatedTransport D)
      → t.response ≡ x ∷ later
      → read 0 t ≡ ok (x ∷ []) (behind t 1 later)
  unfolding read
  read_one x later t e = take_response_lem (x ∷ []) later t e

-- What responseLength has to answer for the parts of a reply: nothing, or the length of the reply; and
-- its length for the whole.
pub record IsFramed (response_length : List ℕ → ResponseLength) (r : List ℕ) : Type 0 where
  pub part :
      (p q : List ℕ)
      → r ≡ p ++ q
      → 0 < length p
      → (response_length p ≡ unknown_length) ⊎ (response_length p ≡ total (length r))
  pub whole : response_length r ≡ total (length r)

module _ {D S : Type 0} (generate_response : List ℕ → D × List ℕ → D × List ℕ) (clock : D → ℕ × D)
    (b : BusMethods S) (end : ℕ) (in_time : (d : D) → (clock d).0 < end) where
  abbrev loop : ℕ → ℕ → ℕ → List ℕ → M (World (SimulatedTransport D) S) (List ℕ)
  loop fuel = gather (simulated_line generate_response clock) b fuel end

  pub on_line-ok :
      {A : Type 0} (m : M (SimulatedTransport D) A) (w : World (SimulatedTransport D) S) {a : A}
      {t : SimulatedTransport D}
      → m w.line ≡ ok a t
      → on_line m w ≡ ok a (record w { line = t })
  unfolding on_line
  on_line-ok m w e = rw (e, on_line) refl

  -- A round in which the time is not over.
  gather_round :
      (fuel now expected : ℕ) (p chunk : List ℕ) (w : World (SimulatedTransport D) S)
      (t : SimulatedTransport D)
      → now < end
      → read expected w.line ≡ ok chunk t
      → loop (suc fuel) now expected p w
        ≡ decide
            (b.response_length (p ++ chunk))
            (p ++ chunk)
            (λ left. do
              now' ← on_line (simulated_line generate_response clock).clock
              loop fuel now' left (p ++ chunk))
            (record w { line = t })
  unfolding gather simulated_line
  gather_round fuel now expected p chunk w t h e =
      rw (lt→ltb now end h) (>>=-ok (on_line (read expected)) _ w (on_line-ok (read expected) w e))

  -- The rest of a reply, whose length is known.
  gather_rest :
      (fuel now : ℕ) (p q later : List ℕ) (w : World (SimulatedTransport D) S)
      → w.line.response ≡ q ++ later
      → 0 < length q
      → now < end
      → b.response_length (p ++ q) ≡ total (length (p ++ q))
      → loop (suc fuel) now (length q) p w
        ≡ ok (p ++ q) (record w { line = behind w.line (length q) later })
  gather_rest fuel now p q later w e h t k =
      gather_round fuel now (length q) p q w (behind w.line (length q) later) t
        (read_lem q later w.line e h)
      ∙ rw k (rw (leb-self (length (p ++ q))) refl)
    where
      leb-self : (n : ℕ) → leb n n ≡ true
      leb-self n = ground arith

  decide-more :
      {W : Type 0} (n : ℕ) (a : List ℕ) (m : ℕ) (more : ℕ → M W (List ℕ)) (w : W)
      → n ≡ length a + suc m
      → decide (total n) a more w ≡ more (suc m) w
  decide-more n a m more w e = rw (longer, left) refl
    where
      longer : leb n (length a) ≡ false
      longer = ground arith

      left : n - length a ≡ suc m
      left = omega arith

  -- The line behind a reading of the clock.
  abbrev pub ticked : SimulatedTransport D → SimulatedTransport D
  ticked t = record t { device = (clock t.device).1 }

  pub clock_then :
      {A : Type 0} (k : ℕ → M (World (SimulatedTransport D) S) A)
      (w : World (SimulatedTransport D) S)
      → ◌>>=◌ (on_line (simulated_line generate_response clock).clock) k w
        ≡ k (clock w.line.device).0 (record w { line = ticked w.line })
  unfolding on_line simulated_line
  clock_then k w = refl

  -- A reply that the loop has taken from the front of the response: what stands behind it is left.
  pub record Gathered (r later : List ℕ) (n : ℕ) (w : World (SimulatedTransport D) S)
      (o : Outcome (World (SimulatedTransport D) S) (List ℕ)) : Type 0 where
    pub last : World (SimulatedTransport D) S
    pub is_ok : o ≡ ok r last
    pub response : last.line.response ≡ later
    pub bytes_read : last.line.bytes_read ≡ u64 (w.line.bytes_read + n)
    pub bytes_written : last.line.bytes_written ≡ w.line.bytes_written
    pub node : last.node ≡ w.node

  module _ (r : List ℕ) (framed : IsFramed b.response_length r) where
    -- Behind the byte `x`: the reply is complete, or the loop goes on.
    gather_last :
        (fuel now x : ℕ) (p later : List ℕ) (w : World (SimulatedTransport D) S)
        → w.line.response ≡ x ∷ later
        → now < end
        → r ≡ p ++ (x ∷ [])
        → Gathered r later 1 w (loop (suc fuel) now 0 p w)
    gather_last fuel now x p later w e t k = record {
      last = record w { line = behind w.line 1 later };
      is_ok =
          gather_round fuel now 0 p (x ∷ []) w (behind w.line 1 later) t (read_one x later w.line e)
          ∙ rw (← k) (rw framed.whole (rw (leb-self (length r)) refl));
      response = refl;
      bytes_read = refl;
      bytes_written = refl;
      node = refl;
    }
      where
        leb-self : (n : ℕ) → leb n n ≡ true
        leb-self n = ground arith

    pub gather_more :
        (fuel now : ℕ) (p q later : List ℕ) (w : World (SimulatedTransport D) S)
        → w.line.response ≡ q ++ later
        → 0 < length q
        → length q ≤ fuel
        → now < end
        → r ≡ p ++ q
        → Gathered r later (length q) w (loop fuel now 0 p w)
    gather_more fuel now p [] later w e h f t k = absurd (omega arith)
    gather_more zero now p (x ∷ q) later w e h f t k = absurd (omega arith)
    gather_more (suc fuel) now p (x ∷ []) later w e h f t k = gather_last fuel now x p later w e t k
    gather_more (suc zero) now p (x ∷ y ∷ q) later w e h f t k = absurd (omega arith)
    gather_more (suc (suc fuel)) now p (x ∷ y ∷ q) later w e h f t k =
        let t1 = ticked (behind w.line 1 (y ∷ q ++ later)) in
        let w1 : World (SimulatedTransport D) S = record w { line = t1 } in
        let w2 : World (SimulatedTransport D) S = record w {
          line = behind w.line 1 (y ∷ q ++ later);
        } in
        let next = λ (left now' : ℕ). loop (suc fuel) now' left (p ++ (x ∷ [])) in
        let k1 : r ≡ (p ++ (x ∷ [])) ++ (y ∷ q) = k ∙ sym (append_assoc p (x ∷ []) (y ∷ q)) in
        let round =
          gather_round (suc fuel) now 0 p (x ∷ []) w (behind w.line 1 (y ∷ q ++ later)) t
            (read_one x (y ∷ q ++ later) w.line e) in
        elim (framed.part (p ++ (x ∷ [])) (y ∷ q) k1
          (omega (arith, length-append {0} p (x ∷ [])))) [
            | inl u ↦
                let ih =
                  gather_more (suc fuel) (clock w.line.device).0 (p ++ (x ∷ [])) (y ∷ q) later w1
                    refl (omega arith) (omega arith) (in_time w.line.device) k1 in
                record {
                  last = ih.last;
                  is_ok = round ∙ rw u (clock_then (next 0) w2 ∙ ih.is_ok);
                  response = ih.response;
                  bytes_read = ih.bytes_read ∙ omega arith;
                  bytes_written = ih.bytes_written;
                  node = ih.node;
                }
            | inr u ↦
                let length_r : length r ≡ length (p ++ (x ∷ [])) + length (y ∷ q) =
                  ap length k1 ∙ length-append (p ++ (x ∷ [])) (y ∷ q) in
                let rest =
                  gather_rest fuel (clock w.line.device).0 (p ++ (x ∷ [])) (y ∷ q) later w1 refl
                    (omega arith) (in_time w.line.device) (rw (← k1) framed.whole) in
                record {
                  last = record w1 { line = behind t1 (length (y ∷ q)) later };
                  is_ok =
                      round
                      ∙ rw u (
                          decide-more (length r) (p ++ (x ∷ [])) (length q)
                            (λ left.
                              on_line (simulated_line generate_response clock).clock >>= next left)
                            w2 length_r
                          ∙ clock_then (next (length (y ∷ q))) w2
                          ∙ rest
                          ∙ ap (λ a. ok a (record w1 { line = behind t1 (length (y ∷ q)) later }))
                              (sym k1));
                  response = refl;
                  bytes_read = omega arith;
                  bytes_written = refl;
                  node = refl;
                }
          ]
