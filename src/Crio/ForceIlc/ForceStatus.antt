-- ===== src/Crio/ForceIlc/ForceStatus.antt =====
-- What a force status reports, by its length.
use ts_c_riocpp.Common.{
  ℕ, ◌+◌, ◌^◌, ◌<◌, ◌≡◌, ◌≢◌, refl, ap, ◌∙◌, List, [], ◌∷◌, ◌++◌, arith, length, IsByte, ==_false,
  ltb-true, length-append,
}
use ts_c_riocpp.Modbus.Exceptions.{throw, out_of_range, ◌>>=◌, >>=-ok, >>=-throw}
use ts_c_riocpp.Modbus.Buffer.{uint8, float32}
use ts_c_riocpp.Modbus.Buffer.Frame.{network}
use ts_c_riocpp.Modbus.Parser.{Parser, read, read_buffer}
use ts_c_riocpp.Modbus.Parser.Reads.{at}
use ts_c_riocpp.Modbus.Handler.{reading, parser_size, callback, without_parser, reading-throw}
use ts_c_riocpp.Modbus.Handler.Steps.{handling, byte_step, scalar_step, accepted, checked_call_lem}
use ts_c_riocpp.Ilc.BusList.{Ilc}
use ts_c_riocpp.Crio.ForceIlc.{
  Processors, on_force_status, saa_force_status, daa_force_status, force_status_of_size,
  invalid_reply_length,
}

read_buffer_short :
    (front rest : List ℕ) (len : ℕ)
    → length rest < len
    → read_buffer len (at front rest) ≡ throw out_of_range (at front rest)
unfolding read_buffer
read_buffer_short front rest len few = rw (ltb-true _ _ over) refl
  where
    over : length (front ++ rest) < length front + len
    over = omega (arith, length-append front rest)

read_uint8_short : (front : List ℕ) → read uint8 (at front []) ≡ throw out_of_range (at front [])
unfolding read
read_uint8_short front = rw (read_buffer_short front [] 1 (omega arith), ◌>>=◌) refl

read_float_short :
    (front rest : List ℕ)
    → length rest < 4
    → read float32 (at front rest) ≡ throw out_of_range (at front rest)
unfolding read
read_float_short front rest few = rw (read_buffer_short front rest 4 few, ◌>>=◌) refl

module _ {S : Type 0} (w : Processors S) (a f : ℕ) (s : Ilc S) where
  -- The status and the primary force are read, and the size of the message picks the rest.
  sized :
      (status primary : ℕ) (tail : List ℕ)
      → primary < 2 ^ 32
      → on_force_status w (handling (a ∷ f ∷ []) (status ∷ (network 4 primary ++ tail)) s)
        ≡ force_status_of_size w status primary
            (7 + length tail)
            (handling (a ∷ f ∷ status ∷ network 4 primary) tail s)
  unfolding on_force_status parser_size
  sized status primary tail h =
      >>=-ok (reading (read uint8)) _ _ (byte_step (a ∷ f ∷ []) _ status s)
      ∙ >>=-ok (reading (read float32)) _ _
          (scalar_step (a ∷ f ∷ status ∷ []) tail float32 primary s h)
      ∙ ap
          (λ n.
            force_status_of_size w status primary n
              (handling (a ∷ f ∷ status ∷ network 4 primary) tail s))
          size
    where
      size : length (a ∷ f ∷ status ∷ (network 4 primary ++ tail)) ≡ 7 + length tail
      size = omega arith

  -- A message that ends before the primary force does.
  cut :
      (short : List ℕ)
      → length short < 5
      → (p : Parser) × (on_force_status w (handling (a ∷ f ∷ []) short s)
          ≡ throw out_of_range (record { parser = p; self = s }))
  unfolding on_force_status
  cut [] few = (
    _,
    >>=-throw (reading (read uint8)) _ _
        (reading-throw (read uint8) _ _ s out_of_range (read_uint8_short (a ∷ f ∷ []))),
  )
  cut (status ∷ rest) few = (
    _,
    >>=-ok (reading (read uint8)) _ _ (byte_step (a ∷ f ∷ []) rest status s)
        ∙ >>=-throw (reading (read float32)) _ _ (
            reading-throw (read float32) _ _ s out_of_range
              (read_float_short (a ∷ f ∷ status ∷ []) rest (omega arith))),
  )

  -- A force status of nine bytes is that of a single axis actuator, one of thirteen that of a dual axis
  -- actuator, with forces of 32 bits: each is reported exactly if the CRC is that of the message, and
  -- is a CRCError that changes nothing otherwise. A message of another length that holds the status and
  -- the primary force is the exception for an invalid length, and one that ends before that, behind its
  -- address and function, is std::out_of_range; both change nothing, whatever the CRC.
  pub force_status_lem :
      (status primary : ℕ)
      → primary < 2 ^ 32
      → let head = status ∷ network 4 primary in
        ((lo hi : ℕ)
          → IsByte lo
          → IsByte hi
          → callback (on_force_status w) (at (a ∷ f ∷ []) (head ++ (lo ∷ hi ∷ []))) s
            ≡ accepted
                (λ address. w.process_saa_force_status address status primary)
                a
                (a ∷ f ∷ head)
                lo
                hi
                s)
        × ((secondary lo hi : ℕ)
            → secondary < 2 ^ 32
            → IsByte lo
            → IsByte hi
            → callback
                (on_force_status w)
                (at (a ∷ f ∷ []) (head ++ (network 4 secondary ++ (lo ∷ hi ∷ []))))
                s
              ≡ accepted
                  (λ address. w.process_daa_force_status address status primary secondary)
                  a
                  (a ∷ f ∷ (head ++ network 4 secondary))
                  lo
                  hi
                  s)
        × ((tail : List ℕ)
            → length tail ≢ 2
            → length tail ≢ 6
            → callback (on_force_status w) (at (a ∷ f ∷ []) (head ++ tail)) s
              ≡ throw invalid_reply_length s)
        × ((short : List ℕ)
            → length short < 5
            → callback (on_force_status w) (at (a ∷ f ∷ []) short) s ≡ throw out_of_range s)
  unfolding callback force_status_of_size
  force_status_lem status primary h = (
    λ lo hi hlo hhi.
        ap without_parser (sized status primary (lo ∷ hi ∷ []) h) ∙ single lo hi hlo hhi,
    λ secondary lo hi hs hlo hhi.
        ap without_parser (sized status primary (network 4 secondary ++ (lo ∷ hi ∷ [])) h)
        ∙ dual secondary lo hi hs hlo hhi,
    λ tail short long.
        ap without_parser (sized status primary tail h)
        ∙ rw
            (
              ==_false (7 + length tail) 9 (omega arith),
              ==_false (7 + length tail) 13 (omega arith),
            )
            refl,
    λ short few. ap without_parser (cut short few).1,
  )
    where
      single :
          (lo hi : ℕ)
          → IsByte lo
          → IsByte hi
          → without_parser (
              saa_force_status w status primary
                (handling (a ∷ f ∷ status ∷ network 4 primary) (lo ∷ hi ∷ []) s))
            ≡ accepted
                (λ address. w.process_saa_force_status address status primary)
                a
                (a ∷ f ∷ status ∷ network 4 primary)
                lo
                hi
                s
      single lo hi hlo hhi =
          unfold saa_force_status in
          checked_call_lem (λ address. w.process_saa_force_status address status primary) a _ lo hi
            s hlo hhi

      dual :
          (secondary lo hi : ℕ)
          → secondary < 2 ^ 32
          → IsByte lo
          → IsByte hi
          → without_parser (
              daa_force_status w status primary (
                handling
                  (a ∷ f ∷ status ∷ network 4 primary)
                  (network 4 secondary ++ (lo ∷ hi ∷ []))
                  s))
            ≡ accepted
                (λ address. w.process_daa_force_status address status primary secondary)
                a
                (a ∷ f ∷ (status ∷ network 4 primary ++ network 4 secondary))
                lo
                hi
                s
      dual secondary lo hi hs hlo hhi =
          unfold daa_force_status in
          ap without_parser (
            >>=-ok (reading (read float32)) _ _ (
              scalar_step (a ∷ f ∷ status ∷ network 4 primary) (lo ∷ hi ∷ []) float32 secondary s
                hs))
          ∙ checked_call_lem
              (λ address. w.process_daa_force_status address status primary secondary) a _ lo hi s
              hlo hhi
