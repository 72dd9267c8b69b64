-- ===== src/Udivmod/Tests.antt =====
-- The division at concrete inputs.
use obsidian_kernel.Base.{◌+◌, ◌*◌, ◌<◌, ◌≡◌, refl, arith}
use obsidian_kernel.Udivmod.{div_mod, udivmod_round, udivmod_loop, udivmoddi4}
use obsidian_kernel.Udivmod.Correct.{udivmoddi4_lem}

thousand_by_seven : udivmoddi4 1000 7 ≡ div_mod 142 6
unfolding udivmoddi4 udivmod_loop udivmod_round
thousand_by_seven = refl

by_zero : udivmoddi4 1000 0 ≡ div_mod 0 0
unfolding udivmoddi4
by_zero = refl

udivmoddi4_lem_example :
    (1000 ≡ (udivmoddi4 1000 7).quot * 7 + (udivmoddi4 1000 7).rem) × ((udivmoddi4 1000 7).rem < 7)
udivmoddi4_lem_example = udivmoddi4_lem 1000 7 (omega arith) (omega arith)
