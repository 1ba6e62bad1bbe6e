-- ===== src/Tests/Reset.antt =====
-- ResetUARTGW on a kernel that refuses to flush the input.
use hmgo.Prelude.{ℕ, suc, ◌≡◌, refl, [], ◌∷◌, ◌++◌, none, some, take, get_elem?, ◌⊎◌}
use hmgo.Effect.{ok, fail}
use hmgo.Gpio.{Request, open_chip, flush_failed, request, close_chip, failure, Kernel, reset_uartgw}
use hmgo.Gpio.Resetting.{toggling, closed, reset_uartgw_cases}

abbrev refusing : Kernel
refusing = record { results = none ∷ none ∷ none ∷ some 25 ∷ []; calls = [] }

refused_test : (reset_uartgw refusing).0 ≡ fail (flush_failed 25)
unfolding reset_uartgw
refused_test = refl

reset_uartgw_cases_example :
    (((reset_uartgw refusing).0 ≡ ok tt)
      × ((reset_uartgw refusing).1.calls ≡ request open_chip ∷ (toggling ++ close_chip ∷ [])))
    ⊎ ((n : ℕ) × (r : Request) × (errno : ℕ) × (get_elem? (request open_chip ∷ toggling) n
          ≡ some (request r))
        × ((reset_uartgw refusing).0 ≡ fail (failure r errno))
        × ((reset_uartgw refusing).1.calls
            ≡ take (suc n) (request open_chip ∷ toggling) ++ closed n))
reset_uartgw_cases_example = reset_uartgw_cases refusing
