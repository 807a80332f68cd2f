-- ===== src/Conv/Lines/Order.antt =====
-- `advance_write_pointer` walks a line page by page.
use nvmevirt_learned_ftl.Prelude.{
  ℕ, ◌+◌, ◌-◌, ◌*◌, ◌/◌, ◌%◌, ◌^◌, ◌≤◌, ◌<◌, ◌≡◌, ◌≢◌, refl, some, arith, inl, inr, eq-cases, ◌⊎◌,
  subst, sym, ◌∙◌, ap,
}
use nvmevirt_learned_ftl.Ssd.Params.{SsdParams}
use nvmevirt_learned_ftl.Ssd.Params.Geometry.{IsGeometry}
use nvmevirt_learned_ftl.Conv.State.{ConvFtl, WritePointer, IoType, get_wp, set_wp}
use nvmevirt_learned_ftl.Conv.State.Pointer.{Fits, IsPointer, place}
use nvmevirt_learned_ftl.Conv.State.Index.{digit-lt, digit-injective}
use nvmevirt_learned_ftl.Conv.State.Queue.{QueueOps}
use nvmevirt_learned_ftl.Conv.Lines.{
  advance_write_pointer, next_ch, next_lun, next_wordline, next_line,
}

suc-div : (n k : ℕ) → 0 < k → (n + 1) % k ≢ 0 → ((n + 1) / k ≡ n / k) × ((n + 1) % k ≡ n % k + 1)
suc-div n k hk h = grind arith

suc-div_end : (n k : ℕ) → 0 < k → (n + 1) % k ≡ 0 → (n + 1 ≡ n / k * k + k) × (n % k + 1 ≡ k)
suc-div_end n k hk h = grind arith

mul-div-mod : (a k : ℕ) → 0 < k → (a * k / k ≡ a) × (a * k % k ≡ 0)
mul-div-mod a k hk = grind arith

below_multiple : (n k m t : ℕ) → t ≡ k * m → n < t → (n + 1) % k ≢ 0 → n + 1 < t
below_multiple n k m t e h ne = grind arith

-- The start of a wordline, and of the next one.
wordline :
    (n k : ℕ)
    → 0 < k
    → (n + 1) % k ≡ 0
    → ((n + 1 - k) / k ≡ n / k) × ((n + 1 - k) % k ≡ 0) × ((n + 1) / k ≡ n / k + 1)
wordline n k hk e =
    let (a, b) = suc-div_end n k hk e in
    let m = mul-div-mod (n / k) k hk in
    let m' = mul-div-mod (n / k + 1) k hk in
    let q : n + 1 - k ≡ n / k * k = omega arith in
    let q' : n + 1 ≡ (n / k + 1) * k = omega arith in
    (rw q m.0, rw q m.1, ap (λ x. x / k) q' ∙ m'.0)

-- Past the last channel the place is that of the next die, and past the last die that of the next
-- wordline.
wrap_ch :
    (q l c o nl nc m : ℕ)
    → c + 1 ≡ nc
    → m + 1 ≡ o
    → ((q * nl + (l + 1)) * nc + 0) * o + 0 ≡ ((q * nl + l) * nc + c) * o + m + 1
wrap_ch q l c o nl nc m ec em = rw (← ec, ← em) (omega arith)

wrap_lun :
    (q l c o nl nc m : ℕ)
    → c + 1 ≡ nc
    → l + 1 ≡ nl
    → m + 1 ≡ o
    → (((q + 1) * nl + 0) * nc + 0) * o + 0 ≡ ((q * nl + l) * nc + c) * o + m + 1
wrap_lun q l c o nl nc m ec el em = rw (← ec, ← el, ← em) (omega arith)

wrap_all :
    (q l c o nl nc m n : ℕ)
    → c + 1 ≡ nc
    → l + 1 ≡ nl
    → m + 1 ≡ o
    → n ≡ q * o + o
    → ((q * nl + l) * nc + c) * o + m + 1 ≡ nl * nc * n
wrap_all q l c o nl nc m n ec el em en = rw (en, ← ec, ← el, ← em) (omega arith)

below_product :
    (q l c m nl nc o r t : ℕ)
    → l < nl
    → c < nc
    → m < o
    → q < r
    → t ≡ nl * nc * (o * r)
    → ((q * nl + l) * nc + c) * o + m < t
below_product q l c m nl nc o r t hl hc hm hq e =
    let l1 = digit-lt q r l nl hq hl in
    let l2 = digit-lt (q * nl + l) (r * nl) c nc l1 hc in
    let l3 = digit-lt ((q * nl + l) * nc + c) (r * nl * nc) m o l2 hm in rw e (omega (arith, l3))

div-below : (n k m : ℕ) → 0 < k → n < k * m → (n / k < m) × (n % k < k)
div-below n k m hk h = grind arith

-- The places of a line are the numbers below its count of pages.
pub place-lt :
    (s : SsdParams) (w : WritePointer)
    → IsGeometry s
    → 0 < s.pgs_per_oneshotpg
    → IsPointer s w
    → place s w < s.pgs_per_line
place-lt s w geo hk h =
    let (hq, hm) =
      div-below w.pg s.pgs_per_oneshotpg s.oneshotpgs_per_blk hk
        (subst (λ t. w.pg < t) geo.blk_pgs h.pg_in) in
    below_product (w.pg / s.pgs_per_oneshotpg) w.lun w.ch (w.pg % s.pgs_per_oneshotpg) s.luns_per_ch
      s.nchs s.pgs_per_oneshotpg s.oneshotpgs_per_blk s.pgs_per_line h.lun_in h.ch_in hm hq
      (geo.line_pgs
        ∙ ap (λ b. b * s.pgs_per_blk) (geo.line_blks ∙ geo.all_luns)
        ∙ ap (λ b. s.luns_per_ch * s.nchs * b) geo.blk_pgs)

div-mod-eq : (a b k : ℕ) → a / k ≡ b / k → a % k ≡ b % k → a ≡ b
div-mod-eq a b k e e' = grind arith

-- No two pages of a line have the same place.
pub place-injective :
    (s : SsdParams) (v w : WritePointer)
    → 0 < s.pgs_per_oneshotpg
    → IsPointer s v
    → IsPointer s w
    → place s v ≡ place s w
    → (v.pg ≡ w.pg) × (v.lun ≡ w.lun) × (v.ch ≡ w.ch)
place-injective s v w hk hv hw e =
    let (e1, em) =
      digit-injective _ (v.pg % s.pgs_per_oneshotpg) _ (w.pg % s.pgs_per_oneshotpg)
        s.pgs_per_oneshotpg (grind arith) (grind arith) e in
    let (e2, ec) = digit-injective _ v.ch _ w.ch s.nchs hv.ch_in hw.ch_in e1 in
    let (eq, el) = digit-injective _ v.lun _ w.lun s.luns_per_ch hv.lun_in hw.lun_in e2 in
    (div-mod-eq v.pg w.pg s.pgs_per_oneshotpg eq em, el, ec)

-- What `advance_write_pointer` does inside a line: the pointer moves on by one page.
pub record InLine {Q : Type 0} ⦃ops : QueueOps Q⦄ (f : ConvFtl Q) (io : IoType) (v : WritePointer)
    : Type 0 where
  pub runs : advance_write_pointer f io ≡ some (set_wp f io v)
  pub valid : IsPointer f.ssd.sp v
  pub next_place : place f.ssd.sp v ≡ place f.ssd.sp (get_wp f io) + 1
  pub same_line : (v.curline ≡ (get_wp f io).curline) × (v.blk ≡ (get_wp f io).blk)

-- And at its end: the line is retired, and the pointer goes to a new one.
pub record AtEnd {Q : Type 0} ⦃ops : QueueOps Q⦄ (f : ConvFtl Q) (io : IoType) : Type 0 where
  pub last : place f.ssd.sp (get_wp f io) + 1 ≡ f.ssd.sp.pgs_per_line
  pub retires :
      advance_write_pointer f io
      ≡ next_line f io (record (get_wp f io) { ch = 0; lun = 0; pg = f.ssd.sp.pgs_per_blk })

module _ {Q : Type 0} ⦃ops : QueueOps Q⦄ (f : ConvFtl Q) (io : IoType) (geo : IsGeometry f.ssd.sp)
    (fits : Fits f.ssd.sp) (one_pos : 0 < f.ssd.sp.pgs_per_oneshotpg)
    (h : IsPointer f.ssd.sp (get_wp f io)) where
  abbrev s : SsdParams
  s = f.ssd.sp

  abbrev w : WritePointer
  w = get_wp f io

  abbrev one : ℕ
  one = f.ssd.sp.pgs_per_oneshotpg

  blk_small : f.ssd.sp.pgs_per_blk ≤ 2 ^ 16
  blk_small = fits.pgs_fit

  within_page : (w.pg + 1) % one ≢ 0 → InLine f io (record w { pg = w.pg + 1 })
  unfolding advance_write_pointer
  within_page ne =
      let (d, m) = suc-div w.pg one one_pos ne in
      record {
        runs = ground arith;
        valid = record {
          ch_in = h.ch_in;
          lun_in = h.lun_in;
          pl_zero = h.pl_zero;
          pl_in = h.pl_in;
          blk_in = h.blk_in;
          pg_in =
              below_multiple w.pg one f.ssd.sp.oneshotpgs_per_blk f.ssd.sp.pgs_per_blk geo.blk_pgs
                h.pg_in ne;
        };
        next_place = rw (d, m) (omega arith);
        same_line = (refl, refl);
      }

  abbrev base : ℕ
  base = w.pg + 1 - one

  module _ (at_end : (w.pg + 1) % one ≡ 0) where
    next_channel : w.ch + 1 ≢ f.ssd.sp.nchs → InLine f io (record w { ch = w.ch + 1; pg = base })
    unfolding advance_write_pointer next_ch
    next_channel ne =
        let (d, m, n) = wordline w.pg one one_pos at_end in
        let (a, b) = suc-div_end w.pg one one_pos at_end in
        record {
          runs = ground arith;
          valid = record {
            ch_in = omega arith;
            lun_in = h.lun_in;
            pl_zero = h.pl_zero;
            pl_in = h.pl_in;
            blk_in = h.blk_in;
            pg_in = omega arith;
          };
          next_place = rw (d, m) (omega arith);
          same_line = (refl, refl);
        }

    next_die :
        w.ch + 1 ≡ f.ssd.sp.nchs
        → w.lun + 1 ≢ f.ssd.sp.luns_per_ch
        → InLine f io (record w { ch = 0; lun = w.lun + 1; pg = base })
    unfolding advance_write_pointer next_ch next_lun
    next_die ec ne =
        let (d, m, n) = wordline w.pg one one_pos at_end in
        let (a, b) = suc-div_end w.pg one one_pos at_end in
        record {
          runs = ground arith;
          valid = record {
            ch_in = omega arith;
            lun_in = omega arith;
            pl_zero = h.pl_zero;
            pl_in = h.pl_in;
            blk_in = h.blk_in;
            pg_in = omega arith;
          };
          next_place =
              rw (d, m)
                (wrap_ch (w.pg / one) w.lun w.ch one f.ssd.sp.luns_per_ch f.ssd.sp.nchs (w.pg % one)
                  ec b);
          same_line = (refl, refl);
        }

    next_row :
        w.ch + 1 ≡ f.ssd.sp.nchs
        → w.lun + 1 ≡ f.ssd.sp.luns_per_ch
        → w.pg + 1 ≢ f.ssd.sp.pgs_per_blk
        → InLine f io (record w { ch = 0; lun = 0; pg = w.pg + 1 })
    unfolding advance_write_pointer next_ch next_lun next_wordline
    next_row ec el ne =
        let (d, m, n) = wordline w.pg one one_pos at_end in
        let (a, b) = suc-div_end w.pg one one_pos at_end in
        record {
          runs = ground arith;
          valid = record {
            ch_in = omega arith;
            lun_in = omega arith;
            pl_zero = h.pl_zero;
            pl_in = h.pl_in;
            blk_in = h.blk_in;
            pg_in = omega arith;
          };
          next_place =
              rw (n, at_end)
                (wrap_lun (w.pg / one) w.lun w.ch one f.ssd.sp.luns_per_ch f.ssd.sp.nchs
                  (w.pg % one) ec el b);
          same_line = (refl, refl);
        }

    line_end :
        w.ch + 1 ≡ f.ssd.sp.nchs
        → w.lun + 1 ≡ f.ssd.sp.luns_per_ch
        → w.pg + 1 ≡ f.ssd.sp.pgs_per_blk
        → AtEnd f io
    unfolding advance_write_pointer next_ch next_lun next_wordline
    line_end ec el eb =
        let (a, b) = suc-div_end w.pg one one_pos at_end in
        record {
          last =
              wrap_all (w.pg / one) w.lun w.ch one f.ssd.sp.luns_per_ch f.ssd.sp.nchs (w.pg % one)
                f.ssd.sp.pgs_per_blk ec el b (sym eb ∙ a)
              ∙ sym (
                  geo.line_pgs ∙ ap (λ b. b * f.ssd.sp.pgs_per_blk) (geo.line_blks ∙ geo.all_luns));
          retires = ground arith;
        }

    past_row :
        w.ch + 1 ≡ f.ssd.sp.nchs
        → w.lun + 1 ≡ f.ssd.sp.luns_per_ch
        → ((v : WritePointer) × InLine f io v) ⊎ AtEnd f io
    past_row ec el = elim (eq-cases (w.pg + 1) f.ssd.sp.pgs_per_blk) [
      | inl eb ↦ inr (line_end ec el eb)
      | inr ne ↦ inl (_, next_row ec el ne)
    ]

    past_die : w.ch + 1 ≡ f.ssd.sp.nchs → ((v : WritePointer) × InLine f io v) ⊎ AtEnd f io
    past_die ec = elim (eq-cases (w.lun + 1) f.ssd.sp.luns_per_ch) [
      | inl el ↦ past_row ec el
      | inr ne ↦ inl (_, next_die ec ne)
    ]

    past_wordline : ((v : WritePointer) × InLine f io v) ⊎ AtEnd f io
    past_wordline = elim (eq-cases (w.ch + 1) f.ssd.sp.nchs) [
      | inl ec ↦ past_die ec
      | inr ne ↦ inl (_, next_channel ne)
    ]

  -- On a well-formed geometry that fits, with some pages in a wordline and the pointer on a page of
  -- the array: `advance_write_pointer` either returns, puts the pointer on the next place of its
  -- line, again on a page of the array, and changes nothing else; or the pointer stands on the last
  -- place of the line and the call goes on to retire the line.
  pub advance_write_pointer_lem : ((v : WritePointer) × InLine f io v) ⊎ AtEnd f io
  advance_write_pointer_lem = elim (eq-cases ((w.pg + 1) % one) 0) [
    | inl at_end ↦ past_wordline at_end
    | inr ne ↦ inl (_, within_page ne)
  ]
