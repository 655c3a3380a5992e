-- ===== src/Skipper/Events/Trust.antt =====
-- The targets whose responses are kept as they are: `is_trusted_consumer_target`.
use nfcompose.Shared.{
  String, ◌<◌, ◌≡◌, sym, ap, ◌∙◌, ◌↔◌, inl, inr, Bool, true, not, ◌&&◌, arith, eqb, eq_iff, eq_refl,
  Bool-cases, ◌==◌,
}
use nfcompose.Skipper.Events.Sanitize.{is_digits, is_port_after, is_trusted_consumer_target}
use Prim.Native.Char.{Char, code}
use Prim.Native.String.{count, ◌++◌}
use text.Mathlib.TextLemmas.{length-cons, nil-append, cons-append}

-- `.` is any character but a newline.
has_no_newline : String → Bool
has_no_newline String.[] = true
has_no_newline (String.◌∷◌ c s) = not (eqb (code c) 10) && has_no_newline s

IsPort : String → Type 0
IsPort port = (0 < count port) × (is_digits port ≡ true)

-- At least one character, `local:` and the digits of a port.
pub IsTrustedHost : String → Type 0
IsTrustedHost netloc =
    (before port : String) × (netloc ≡ before ++ ("local:" ++ port))
    × (0 < count before)
    × (has_no_newline before ≡ true)
    × IsPort port

first_or : Char → String → Char
first_or c String.[] = c
first_or c (String.◌∷◌ d s) = d

same_character : (c d : Char) → (String.◌∷◌ c "" == String.◌∷◌ d "") ≡ true → c ≡ d
unfolding first_or
same_character c d h = ap (first_or c) ((eq_iff (String.◌∷◌ c "") (String.◌∷◌ d "")).0 h)

rest-IsPort :
    (p s : String) → is_port_after p s ≡ true → (port : String) × (s ≡ p ++ port) × IsPort port
unfolding is_port_after IsPort
rest-IsPort String.[] String.[] h = absurd (ground (arith, h))
rest-IsPort String.[] (String.◌∷◌ d s) h =
    (String.◌∷◌ d s, sym (nil-append (String.◌∷◌ d s)), (omega (arith, length-cons d s), h))
rest-IsPort (String.◌∷◌ c p) String.[] h = absurd (ground (arith, h))
rest-IsPort (String.◌∷◌ c p) (String.◌∷◌ d s) h =
    let (port, e, is_port) = rest-IsPort p s (ground (arith, h)) in
    (
      port,
      ap (λ x. String.◌∷◌ x s) (sym (same_character c d (ground (arith, h))))
          ∙ ap (λ x. String.◌∷◌ c x) e
          ∙ sym (cons-append c p port),
      is_port,
    )

is_port_after_lem : (p port : String) → IsPort port → is_port_after p (p ++ port) ≡ true
unfolding is_port_after IsPort
is_port_after_lem String.[] String.[] h = absurd (omega (arith, h.0))
is_port_after_lem String.[] (String.◌∷◌ d s) h = rw (nil-append (String.◌∷◌ d s)) h.1
is_port_after_lem (String.◌∷◌ c p) port h =
    rw (cons-append c p port)
      (ground (arith, eq_refl (String.◌∷◌ c ""), is_port_after_lem p port h))

trusted-IsTrustedHost :
    (netloc : String) → is_trusted_consumer_target netloc ≡ true → IsTrustedHost netloc
unfolding is_trusted_consumer_target IsTrustedHost has_no_newline
trusted-IsTrustedHost String.[] h = absurd (ground (arith, h))
trusted-IsTrustedHost (String.◌∷◌ c s) h = elim (Bool-cases (is_port_after "local:" s)) [
  | inl here ↦
      let (port, e, is_port) = rest-IsPort "local:" s here in
      (
        String.◌∷◌ c "",
        port,
        ap (λ x. String.◌∷◌ c x) (e ∙ sym (nil-append _)) ∙ sym (cons-append c "" _),
        omega (arith, length-cons c ""),
        ground (arith, h),
        is_port,
      )
  | inr there ↦
      let (before, port, e, long, line, is_port) =
        trusted-IsTrustedHost s (ground (arith, h, there)) in
      (
        String.◌∷◌ c before,
        port,
        ap (λ x. String.◌∷◌ c x) e ∙ sym (cons-append c before _),
        omega (arith, length-cons c before),
        ground (arith, h, line),
        is_port,
      )
]

host-trusted :
    (before port : String)
    → 0 < count before
    → has_no_newline before ≡ true
    → IsPort port
    → is_trusted_consumer_target (before ++ ("local:" ++ port)) ≡ true
unfolding is_trusted_consumer_target has_no_newline
host-trusted String.[] port long line h = absurd (omega (arith, long))
host-trusted (String.◌∷◌ c String.[]) port long line h =
    rw (cons-append c "" ("local:" ++ port), nil-append ("local:" ++ port))
      (ground (arith, line, is_port_after_lem "local:" port h))
host-trusted (String.◌∷◌ c (String.◌∷◌ d s)) port long line h =
    rw (cons-append c (String.◌∷◌ d s) ("local:" ++ port)) (
      ground (
        arith,
        line,
        host-trusted (String.◌∷◌ d s) port (omega (arith, length-cons d s)) (ground (arith, line))
            h,
      ))

pub trusted_iff :
    (netloc : String) → (is_trusted_consumer_target netloc ≡ true) ↔ IsTrustedHost netloc
unfolding IsTrustedHost
trusted_iff netloc = (
  trusted-IsTrustedHost netloc,
  λ (before, port, e, long, line, is_port).
      ap is_trusted_consumer_target e ∙ host-trusted before port long line is_port,
)
