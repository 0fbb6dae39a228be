-- ===== src/Boot/ClockSetup.antt =====
-- bootrom/bootrom_main.c: _usb_clock_setup, as the sequence of its accesses to the registers of the
-- clocks, the oscillators and the PLL, and what they do to the clocks by the data sheet.
use pico_bootrom_rp.Common.{
  ℕ, ◌*◌, ◌/◌, Bool, true, false, ◌&&◌, ◌||◌, not, List, [], ◌∷◌, if◌then◌else◌,
}

-- The parts of the clock tree that the code sets. clk_sys runs from clk_ref, or from its auxiliary
-- source, which is the system PLL where `sys_aux_pll`; clk_ref runs from the ring oscillator
-- where `ref_rosc`, and from another source, which runs where `ref_runs`, elsewhere. `glitched` is whether the PLL, the auxiliary source or the dividers of clk_sys
-- were changed while clk_sys ran from that source or from a clk_ref other than the ring oscillator.
pub record Clocks : Type 0 where
  pub rosc_enabled : Bool
  pub ref_rosc : Bool
  pub ref_runs : Bool
  pub resus : Bool
  pub sys_aux : Bool
  pub sys_aux_pll : Bool
  pub sys_div : ℕ
  pub usb_div : ℕ
  pub usb_pll : Bool
  pub xosc_enabled : Bool
  pub pll_refdiv : ℕ
  pub pll_fbdiv : ℕ
  pub pll_postdiv1 : ℕ
  pub pll_postdiv2 : ℕ
  pub pll_powered : Bool
  pub pll_post_powered : Bool
  pub glitched : Bool

-- What the board does: the frequency of its crystal in MHz, whether the crystal becomes stable, and
-- whether the PLL locks.
pub record Crystal : Type 0 where
  pub mhz : ℕ
  pub stable : Bool
  pub locks : Bool

-- The accesses, in the words of the source.
pub data ClockOp : Type 0 where
  enable_rosc clear_ref_src enable_resus clear_sys_src wait_sys_ref set_divs : ClockOp
  enable_xosc wait_xosc reset_pll set_refdiv set_fbdiv set_postdivs : ClockOp
  power_pll wait_lock power_postdivs clear_sys_ctrl set_usb_ctrl set_sys_src wait_sys_aux : ClockOp

-- Whether clk_sys runs from the ring oscillator, by clk_ref.
abbrev pub on_rosc : Clocks → Bool
on_rosc c = c.rosc_enabled && c.ref_rosc && not c.sys_aux

-- A change that needs clk_sys to run from the ring oscillator.
abbrev pub guarded : Clocks → Clocks → Clocks
guarded before after = record after { glitched = before.glitched || not (on_rosc before) }

-- The multiplexer of clk_ref does not switch away from a source that has stopped.
unfoldable pub apply : ClockOp → Clocks → Clocks
apply enable_rosc c = record c { rosc_enabled = true }
apply clear_ref_src c = record c { ref_rosc = c.ref_rosc || c.ref_runs }
apply enable_resus c = record c { resus = true }
apply clear_sys_src c = record c { sys_aux = false }
apply set_divs c = guarded c (record c { sys_div = 1; usb_div = 1 })
apply enable_xosc c = guarded c (record c { xosc_enabled = true })
apply reset_pll c = guarded c (record c { pll_powered = false; pll_post_powered = false })
apply set_refdiv c = guarded c (record c { pll_refdiv = 1 })
apply set_fbdiv c = guarded c (record c { pll_fbdiv = 100 })
apply set_postdivs c = guarded c (record c { pll_postdiv1 = 5; pll_postdiv2 = 5 })
apply power_pll c = guarded c (record c { pll_powered = true })
apply power_postdivs c = guarded c (record c { pll_post_powered = true })
apply clear_sys_ctrl c = guarded c (record c { sys_aux = false; sys_aux_pll = true })
apply set_usb_ctrl c = record c { usb_pll = true }
apply set_sys_src c = record c { sys_aux = true }
apply wait_sys_ref c = c
apply wait_xosc c = c
apply wait_lock c = c
apply wait_sys_aux c = c

-- Whether a wait ends. The two switches of clk_sys end, since the clock that it switches to runs.
unfoldable pub ends : Crystal → ClockOp → Clocks → Bool
ends x wait_sys_ref c = c.rosc_enabled && c.ref_rosc
ends x wait_xosc c = c.xosc_enabled && x.stable
ends x wait_lock c = c.pll_powered && x.locks
ends x wait_sys_aux c = c.pll_powered && c.pll_post_powered
ends x op c = true

-- The clocks behind the accesses, and whether all waits ended.
unfoldable pub run_clocks : Crystal → List ClockOp → Clocks → Clocks × Bool
run_clocks x [] c = (c, true)
run_clocks x (op ∷ ops) c =
    let rest = run_clocks x ops (apply op c) in
    if ends x op (apply op c) then rest else (apply op c, false)

-- The accesses of `_usb_clock_setup`.
unfoldable pub clock_ops : List ClockOp
clock_ops =
    enable_rosc ∷ clear_ref_src ∷ enable_resus ∷ clear_sys_src ∷ wait_sys_ref ∷ set_divs
    ∷ enable_xosc ∷ wait_xosc ∷ reset_pll ∷ set_refdiv ∷ set_fbdiv ∷ set_postdivs ∷ power_pll
    ∷ wait_lock ∷ power_postdivs ∷ clear_sys_ctrl ∷ set_usb_ctrl ∷ set_sys_src ∷ wait_sys_aux ∷ []

-- `_usb_clock_setup`
unfoldable pub usb_clock_setup : Crystal → Clocks → Clocks × Bool
usb_clock_setup x c = run_clocks x clock_ops c

-- The frequency of the PLL in MHz.
unfoldable pub pll_mhz : Crystal → Clocks → ℕ
pll_mhz x c = x.mhz / c.pll_refdiv * c.pll_fbdiv / (c.pll_postdiv1 * c.pll_postdiv2)
