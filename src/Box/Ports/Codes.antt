-- ===== src/Box/Ports/Codes.antt =====
-- MP2/src/port_register.c: what differs from MP5, the code of a name and the requests.
use mathlib.Core.Option.{some-injective}
use sp.Base.{
  ℕ, ◌+◌, ◌*◌, ◌%◌, ◌<◌, ◌≡◌, refl, sym, ap, subst, ◌∙◌, Bool, Option, none, some, List, [], ◌∷◌,
  ◌++◌, Bytes, arith, ◌==◌, if◌then◌else◌, length, take,
}
use sp.Base.Int.{ℤ, ==ℤ_iff}
use sp.Box.Table.Change.{IsTable}
use sp.Box.Ports.{
  Register, char_bits, int_of, book_port, get_next_port, get_port, written, asked,
  clean_port_reserve, Event, connection, idle,
}
use sp.Box.Ports.Booked.{ports, Books, book_port_lem}

unfoldable pub code_bits : ℕ → Bytes → ℕ
unfolding char_bits
code_bits code [] = code
code_bits code (c ∷ name) = code_bits ((code * 256 + char_bits c) % 4294967296) name

unfoldable pub get_hash_code : Bytes → ℤ
unfolding code_bits int_of
get_hash_code name = int_of (code_bits 0 name)

unfoldable pub serve_name : Register → ℕ → Bytes → Option (Register × Option ℕ)
unfolding written asked book_port get_port get_hash_code
serve_name s act name =
    if act == b'0'
    then written (book_port get_hash_code s name)
    else if act == b'1'
    then asked s (get_port get_hash_code s name)
    else some (s, none)

unfoldable pub handle_request : Register → Bytes → Option (Register × Option ℕ)
unfolding serve_name
handle_request s [] = some (s, none)
handle_request s (act ∷ []) = some (s, none)
handle_request s (act ∷ c ∷ name) = serve_name s act (take 512 (c ∷ name))

unfoldable pub round : Register → Event → Option (Register × Option ℕ)
unfolding handle_request clean_port_reserve
round s (connection bytes) = handle_request s bytes
round s (idle can_bind later) = some (clean_port_reserve s can_bind later, none)

code_bits-append :
    (code : ℕ) (xs ys : Bytes) → code_bits code (xs ++ ys) ≡ code_bits (code_bits code xs) ys
unfolding code_bits
code_bits-append code [] ys = refl
code_bits-append code (c ∷ xs) ys = code_bits-append ((code * 256 + char_bits c) % 4294967296) xs ys

four : (w a b c d : ℕ) → code_bits w (a ∷ b ∷ c ∷ d ∷ []) ≡ code_bits 0 (a ∷ b ∷ c ∷ d ∷ [])
unfolding code_bits
four w a b c d = omega arith

last_four : (w : ℕ) (last : Bytes) → length last ≡ 4 → code_bits w last ≡ code_bits 0 last
last_four w (a ∷ b ∷ c ∷ d ∷ []) e = four w a b c d
last_four w (a ∷ b ∷ c ∷ d ∷ e' ∷ r) e = absurd (omega arith)
last_four w [] e = absurd (omega arith)
last_four w (a ∷ []) e = absurd (omega arith)
last_four w (a ∷ b ∷ []) e = absurd (omega arith)
last_four w (a ∷ b ∷ c ∷ []) e = absurd (omega arith)

-- Only the last four bytes of a name count.
get_hash_code-append :
    (front last : Bytes) → length last ≡ 4 → get_hash_code (front ++ last) ≡ get_hash_code last
unfolding get_hash_code
get_hash_code-append front last e =
    ap int_of (code_bits-append 0 front last ∙ last_four (code_bits 0 front) last e)

-- In MP2, right after a name was booked, a lookup of any name that has the same last four bytes gives the
-- port that was just booked, also when that name has booked another one before.
pub booked_by_another :
    (s s' : Register) (front front' last : Bytes) (p : ℕ)
    → length last ≡ 4
    → 0 < length s.record_hash
    → IsTable s.record_hash
    → book_port get_hash_code s (front ++ last) ≡ some (s', some p)
    → get_port get_hash_code s' (front' ++ last) ≡ some (some p)
unfolding get_port
booked_by_another s s' front front' last p l n t e =
    by_next (get_next_port s.port_reserve) (book_port_lem get_hash_code s (front ++ last) n t)
  where
    same : get_hash_code (front ++ last) ≡ get_hash_code (front' ++ last)
    same = get_hash_code-append front last l ∙ sym (get_hash_code-append front' last l)

    by_next :
        (o : Option (ℕ × List Bool))
        → Books s (get_hash_code (front ++ last)) (book_port get_hash_code s (front ++ last)) o
        → get_port get_hash_code s' (front' ++ last) ≡ some (some p)
    by_next none b =
        let k : ◌≡◌ {A = Option ℕ} (some p) none = ap (λ r. r.1) (some-injective _ _ (sym e ∙ b)) in
        absurd (cc)
    by_next (some (port, reserve)) (h', b, (t', c, f)) =
        let k = some-injective _ _ (sym b ∙ e) in
        let kp : port ≡ p = some-injective _ _ (ap (λ r. r.1) k) in
        let ks : h' ≡ s'.record_hash = ap (λ r. r.0.record_hash) k in
        let v = (==ℤ_iff (get_hash_code (front ++ last)) (get_hash_code (front' ++ last))).1 same in
        let g : ports h' (get_hash_code (front' ++ last)) ≡ some (some port) =
          f (get_hash_code (front' ++ last)) ∙ rw v refl in
        subst (λ h. ports h (get_hash_code (front' ++ last)) ≡ some (some p)) ks
          (g ∙ ap (λ n. some (some n)) kp)
