-- ===== src/Door/Suite.antt =====
-- The unit tests of src/door.rs: each as what it asserts, and that it passes.
use zapd.Prelude.{◌≡◌, refl, true, false, Option, none, some, [], ◌∷◌, All}
use zapd.Text.{Str, lit}
use zapd.Text.Equal.{str_eq}
use zapd.Text.Split.{strip_prefix, contains}
use zapd.Text.Decimal.{to_decimal}
use zapd.Frame.Envelope.{new, providers_list, response, route, event}
use zapd.Door.{
  origin, host, check, host_ok, origin_ok, random_origin, starts_past, is_some_and, originates,
}

abbrev blink : Option Str
blink = some (lit "chrome-extension://biingenefmanpecedoafkfajbnlgdmbl")

abbrev loopback : Option Str
loopback = some (lit "127.0.0.1:21000")

abbrev AdmitsOurExtensionsOnly : Type 0
AdmitsOurExtensionsOnly =
    (check blink loopback 21000 ≡ none)
    × (check (some (lit "moz-extension://6c3a0b3e-1111-2222-3333-444455556666")) loopback 21000
        ≡ none)
    × (check (some (lit "safari-web-extension://ABCD")) (some (lit "localhost:21000")) 21000 ≡ none)
    × All (λ bad. check bad loopback 21000 ≡ some origin)
        (none
          ∷ some (lit "https://evil.example")
          ∷ some (lit "null")
          ∷ some (lit "chrome-extension://aaaaaaaaaaaaaaaaaaaaaaaaaaaaaaaa")
          ∷ some (lit "moz-extension://")
          ∷ some (lit "http://127.0.0.1:21000")
          ∷ [])

admits_our_extensions_only : AdmitsOurExtensionsOnly
unfolding check host_ok origin_ok random_origin starts_past is_some_and strip_prefix contains str_eq
    to_decimal
admits_our_extensions_only = (refl, refl, refl, (refl, (refl, (refl, (refl, (refl, (refl, tt)))))))

abbrev HostMustBeThisLoopbackPort : Type 0
HostMustBeThisLoopbackPort =
    All (λ bad. check blink bad 21000 ≡ some host)
      (none
        ∷ some (lit "evil.example:21000")
        ∷ some (lit "127.0.0.1:21001")
        ∷ some (lit "127.0.0.1")
        ∷ [])

host_must_be_this_loopback_port : HostMustBeThisLoopbackPort
unfolding check host_ok is_some_and str_eq to_decimal
host_must_be_this_loopback_port = (refl, (refl, (refl, (refl, tt))))

abbrev BrowsersAnswerAndNeverCall : Type 0
BrowsersAnswerAndNeverCall =
    (originates (new providers_list [] [] []) ≡ false)
    × (originates (new response [] (lit "agent/dgx/hanzo-1") []) ≡ false)
    × (originates (new route [] (lit "dev/dgx/42") []) ≡ true)
    × (originates (new event [] (lit "agent/dgx/hanzo-1") []) ≡ true)

browsers_answer_and_never_call : BrowsersAnswerAndNeverCall
unfolding originates
browsers_answer_and_never_call = (refl, refl, refl, refl)
