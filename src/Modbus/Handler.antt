-- ===== src/Modbus/Handler.antt =====
-- A callback of add_response: it has a Parser of its own, a copy, and the fields of its object.
pub mod Steps
use ts_c_riocpp.Common.{length, ℕ, Option, none, some, ◌≡◌, refl}
use ts_c_riocpp.Modbus.Exceptions.{Error, out_of_range, Outcome, ok, throw, M}
use ts_c_riocpp.Modbus.Parser
use ts_c_riocpp.Modbus.Parser.{Parser}

pub record Handler (S : Type 0) : Type 0 where
  pub parser : Parser
  pub self : S

-- A call of a method of the Parser.
unfoldable pub reading : {S A : Type 0} → M Parser A → M (Handler S) A
reading m h = elim (m h.parser) [
  | ok a p ↦ ok a (record h { parser = p })
  | throw e p ↦ throw e (record h { parser = p })
]

-- parser.address()
unfoldable pub parser_address : {S : Type 0} → M (Handler S) ℕ
parser_address h = elim (Parser.address h.parser) [ none ↦ throw out_of_range h | some a ↦ ok a h ]

-- parser.size()
unfoldable pub parser_size : {S : Type 0} → M (Handler S) ℕ
parser_size h = ok (length h.parser.bytes) h

-- The object, and a change of it.
abbrev pub get_self : {S : Type 0} → M (Handler S) S
get_self h = ok h.self h

abbrev pub modify : {S : Type 0} → (S → S) → M (Handler S) (Unit {0})
modify f h = ok tt (record h { self = f h.self })

-- A call of a method of the object.
unfoldable pub call : {S : Type 0} → M S (Unit {0}) → M (Handler S) (Unit {0})
call m h = elim (m h.self) [
  | ok u s ↦ ok tt (record h { self = s })
  | throw e s ↦ throw e (record h { self = s })
]

abbrev pub without_parser : {S : Type 0} → Outcome (Handler S) (Unit {0}) → Outcome S (Unit {0})
without_parser (ok u h) = ok tt h.self
without_parser (throw e h) = throw e h.self

-- The handler as a callback: its Parser is dropped.
unfoldable pub callback : {S : Type 0} → M (Handler S) (Unit {0}) → Parser → M S (Unit {0})
callback m p s = without_parser (m (record { parser = p; self = s }))

pub reading-ok :
    {S A : Type 0} (m : M Parser A) (p q : Parser) (s : S) (a : A)
    → m p ≡ ok a q
    → reading m (record { parser = p; self = s }) ≡ ok a (record { parser = q; self = s })
unfolding reading
reading-ok m p q s a e = rw (e, reading) refl

pub reading-throw :
    {S A : Type 0} (m : M Parser A) (p q : Parser) (s : S) (x : Error)
    → m p ≡ throw x q
    → reading m (record { parser = p; self = s }) ≡ throw x (record { parser = q; self = s })
unfolding reading
reading-throw m p q s x e = rw (e, reading) refl
