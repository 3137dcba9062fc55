-- ===== src/Guc/Ports.antt =====
-- The two ports of a node, which raled_guc.c writes as numbers of 32 bits.
use rale.Base.{
  ℕ, ◌+◌, ◌*◌, ◌/◌, ◌%◌, ◌^◌, ◌≤◌, ◌<◌, ◌≡◌, refl, ap, ◌∙◌, Bool, true, List, [], ◌∷◌, some, length,
  append-nil, pos, to_uint, to_int_self, IsInt, arith,
}
use rale.Text.{Bytes, codes, str_eq, strlcpy_whole}
use rale.Text.Number.{atoi, decimal, format_int}
use rale.Text.Number.RoundTrip.{atoi-format_int}
use rale.StateFile.Words.{Lacks}
use rale.StateFile.Reading.{length-format_int-le}
use rale.Dstore.Tokens.{format_int-some}
use rale.Http.Search.{decimal-Lacks}
use rale.Http.Lines.{Lacks-check}
use rale.Guc.{
  IntVar, rale_port, dstore_port, guc_int, Config, write_int, read_int, find_entry, alias,
  set_entry, guc_set, guc_show,
}
use rale.Guc.File.{read_config}
use rale.Guc.Lines.{AreSettings, settings_text, set_all, is_mark, read_config-set_all}

abbrev pub IsPort : ℕ → Type 0
IsPort n = (1 ≤ n) × (n ≤ 65535)

atoi-decimal : (n : ℕ) → IsPort n → atoi (decimal n) ≡ pos n
unfolding format_int
atoi-decimal n h =
    rw (← append-nil (format_int (pos n))) (atoi-format_int (pos n) [] (omega (arith, h)) tt)

halves : (n : ℕ) → n ≤ 65535 → (n % 2 ^ 32 % 2 ^ 16 ≡ n) × (n % 2 ^ 32 / 2 ^ 16 ≡ 0)
halves n h = (omega (arith, h), omega (arith, h))

set_port :
    (c : Config) (v : IntVar) (n : ℕ)
    → IsPort n
    → set_entry c (guc_int v 1 65535) (decimal n) ≡ (write_int c v (pos n), true)
unfolding set_entry
set_port c v n h = rw (atoi-decimal n h) (ground arith)

-- The port for the election clears the other one.
set-rale_port :
    (c : Config) (n : ℕ)
    → IsPort n
    → guc_set c (codes "rale_port") (decimal n)
      ≡ (record c { rale_port = n; dstore_port = 0 }, true)
unfolding guc_set alias find_entry str_eq write_int to_uint
set-rale_port c n h = set_port c rale_port n h ∙ rw ((halves n h.1).0, (halves n h.1).1) refl

set-dstore_port :
    (c : Config) (n : ℕ)
    → IsPort n
    → guc_set c (codes "dstore_port") (decimal n)
      ≡ (record c { dstore_port = n; db_start = 0 }, true)
unfolding guc_set alias find_entry str_eq write_int to_uint
set-dstore_port c n h = set_port c dstore_port n h ∙ rw ((halves n h.1).0, (halves n h.1).1) refl

port-setting :
    (n : ℕ)
    → IsPort n
    → (0 < length (decimal n)) × Lacks is_mark (decimal n) × (length (decimal n) ≤ 11)
unfolding format_int
port-setting n h = (
  (format_int-some (pos n)).0,
  decimal-Lacks is_mark n (λ d e. ground arith),
  length-format_int-le (pos n) (omega (arith, h)),
)

abbrev rale_setting : ℕ → Bytes × Bytes
rale_setting n = (codes "rale_port", decimal n)

abbrev dstore_setting : ℕ → Bytes × Bytes
dstore_setting n = (codes "dstore_port", decimal n)

-- The two lines, in either order.
abbrev pub rale_last : ℕ → ℕ → List (Bytes × Bytes)
rale_last r d = dstore_setting d ∷ rale_setting r ∷ []

abbrev pub rale_first : ℕ → ℕ → List (Bytes × Bytes)
rale_first r d = rale_setting r ∷ dstore_setting d ∷ []

both-AreSettings :
    (r d : ℕ) → IsPort r → IsPort d → AreSettings (rale_last r d) × AreSettings (rale_first r d)
both-AreSettings r d hr hd =
    let (some_r, plain_r, short_r) = port-setting r hr in
    let (some_d, plain_d, short_d) = port-setting d hd in
    let rale_key = Lacks-check is_mark (codes "rale_port") refl in
    let dstore_key = Lacks-check is_mark (codes "dstore_port") refl in
    (
      (
        omega arith,
        some_d,
        dstore_key,
        plain_d,
        omega (arith, short_d),
        (omega arith, some_r, rale_key, plain_r, omega (arith, short_r), tt),
      ),
      (
        omega arith,
        some_r,
        rale_key,
        plain_r,
        omega (arith, short_r),
        (omega arith, some_d, dstore_key, plain_d, omega (arith, short_d), tt),
      ),
    )

two_settings :
    (c : Config) (k v l w : Bytes) (d e : Config)
    → guc_set c k v ≡ (d, true)
    → guc_set d l w ≡ (e, true)
    → set_all c ((k, v) ∷ (l, w) ∷ []) ≡ e
two_settings c k v l w d e first second =
    ap (λ (r : Config × Bool). (guc_set r.0 l w).0) first ∙ ap (λ (r : Config × Bool). r.0) second

-- A file that sets the two ports of a node: if the line of rale_port stands behind that of dstore_port,
-- the latter port is 0 in the end, whatever the file says of it; in the other order both have their
-- values, and the first two bytes of the path that stands behind them are cleared.
pub read_config-ports :
    (r d : ℕ) (c : Config)
    → IsPort r
    → IsPort d
    → (read_config (some (settings_text (rale_last r d))) c
        ≡ some (record c { rale_port = r; dstore_port = 0; db_start = 0 }))
      × (read_config (some (settings_text (rale_first r d))) c
          ≡ some (record c { rale_port = r; dstore_port = d; db_start = 0 }))
read_config-ports r d c hr hd =
    let (last, first) = both-AreSettings r d hr hd in
    (
      read_config-set_all (rale_last r d) c last
          ∙ ap some (
              two_settings c (codes "dstore_port") (decimal d) (codes "rale_port") (decimal r) _ _
                (set-dstore_port c d hd)
                (set-rale_port (record c { dstore_port = d; db_start = 0 }) r hr)),
      read_config-set_all (rale_first r d) c first
          ∙ ap some (
              two_settings c (codes "rale_port") (decimal r) (codes "dstore_port") (decimal d) _ _
                (set-rale_port c r hr)
                (set-dstore_port (record c { rale_port = r; dstore_port = 0 }) d hd)),
    )

-- What is shown of rale_port has the other port in it, from the seventeenth bit on.
show-rale_port :
    (c : Config)
    → c.rale_port < 2 ^ 16
    → c.dstore_port < 2 ^ 15
    → guc_show c (codes "rale_port") 256 ≡ some (decimal (c.rale_port + 65536 * c.dstore_port))
unfolding guc_show find_entry str_eq read_int format_int
show-rale_port c h k =
    let n = c.rale_port + 65536 * c.dstore_port in
    let int : IsInt (pos n) = omega (arith, h, k) in
    rw (to_int_self (pos n) int)
      (ap some (strlcpy_whole (decimal n) 256 (omega (arith, length-format_int-le (pos n) int))))
