-- ===== src/Tests/Links.antt =====
-- Runs of the walks of kernel/src/fs/lemonfs/links.rs.
use maram_os.Base.{ℕ, ◌≡◌, refl, Option, some, [], ◌∷◌, ◌==◌, if◌then◌else◌}
use maram_os.Fs.Links.{
  LinkPointer, LinkBlock, out_of_fuel, firsts, trace, resolve_links, resolve_links-trace,
  trace-circle,
}

abbrev link : ℕ → ℕ → LinkPointer
link start size = record { start = start; size = size }

-- Block 5 holds two direct links; block 6 leads back to itself.
abbrev read : ℕ → Option LinkBlock
read n =
    if n == 5
    then some (record { links = link 20 1 ∷ link 0 0 ∷ link 30 2 ∷ []; last = link 0 0 })
    else some (record { links = link 40 1 ∷ []; last = link 6 0 })

resolve_links-trace_example :
    resolve_links 3 read (link 5 0 ∷ []) ≡ firsts (trace 3 read (link 5 0) [] [])
resolve_links-trace_example = resolve_links-trace 3 read (link 5 0) refl

trace-circle_example : trace 100 read (link 6 0) [] [] ≡ out_of_fuel
trace-circle_example =
    trace-circle 100 read (link 6 0) (record { links = link 40 1 ∷ []; last = link 6 0 }) [] [] refl
      refl refl refl
