-- ===== src/Annexb/Geometry/Plausible.antt =====
-- What a geometry of src/transport/p2p/annexb.ts says of its two sizes.
use eufy_sdk.Prelude.{
  ℕ, ◌+◌, ◌<◌, ◌≤◌, ◌≡◌, refl, true, List, Option, none, some, leb, arith, Bool, zero, suc, subst,
  false, Option-cases, Bool-cases, inl, inr, sym, ◌∙◌, ap, ◌-◌,
}
use eufy_sdk.MapPixels.{ℤ, pos}
use eufy_sdk.Annexb.{ParamSets, VideoCodec, h264, h265, av1}
use eufy_sdk.Annexb.Rbsp.{negate}
use eufy_sdk.Annexb.Geometry.{
  CodedGeometry, CropWindow, Size, minus, cropped, is_plausible, if_plausible, geometry_of,
  h264_geometry, h265_geometry, coded_geometry, max_coded_dimension, answer, last_nal,
}

-- The display size is the coded size less the crop.
pub record IsCropped (g : CodedGeometry) : Type 0 where
  pub width : g.width ≡ minus g.coded.width (g.crop.left + g.crop.right)
  pub height : g.height ≡ minus g.coded.height (g.crop.top + g.crop.bottom)

negate_implausible : (n : ℕ) → is_plausible (negate n) ≡ false
negate_implausible zero = refl
negate_implausible (suc n) = refl

-- A picture size of `size` samples shown, `before` and `after` cropped, of `coded` samples.
pub record IsSize (shown : ℤ) (before after coded : ℕ) : Type 0 where
  pub size : ℕ
  pub shown_as : shown ≡ pos size
  pub positive : 0 < size
  pub bounded : size ≤ max_coded_dimension
  pub whole : before + size + after ≡ coded

pub record IsPlausible (g : CodedGeometry) : Type 0 where
  pub wide : IsSize g.width g.crop.left g.crop.right g.coded.width
  pub high : IsSize g.height g.crop.top g.crop.bottom g.coded.height

minus-plausible :
    (a b c : ℕ) → is_plausible (minus a (b + c)) ≡ true → IsSize (minus a (b + c)) b c a
unfolding minus
minus-plausible a b c h = elim (Bool-cases (leb (b + c) a)) [
  | inl e ↦ record {
    size = a - (b + c);
    shown_as = rw e refl;
    positive = ground (arith, e, h);
    bounded = ground (arith, e, h);
    whole = ground (arith, e);
  }
  | inr e ↦ absurd (ground (arith, e, h, negate_implausible (b + c - a)))
]

IsPlausible-cropped :
    (g : CodedGeometry)
    → IsCropped g
    → is_plausible g.width ≡ true
    → is_plausible g.height ≡ true
    → IsPlausible g
IsPlausible-cropped g c wide high = record {
  wide =
      subst (λ x. IsSize x g.crop.left g.crop.right g.coded.width) (sym c.width)
        (minus-plausible _ _ _ (ap is_plausible (sym c.width) ∙ wide));
  high =
      subst (λ x. IsSize x g.crop.top g.crop.bottom g.coded.height) (sym c.height)
        (minus-plausible _ _ _ (ap is_plausible (sym c.height) ∙ high));
}

cropped-IsCropped :
    (subsampling : Size) (factor : ℕ) (coded : Size) (w : CropWindow)
    → IsCropped (cropped subsampling factor coded w)
unfolding cropped
cropped-IsCropped subsampling factor coded w = record { width = refl; height = refl }

answer-IsCropped :
    (failed : Bool) (subsampling : Option Size) (factor : ℕ) (coded : Size) (w : CropWindow)
    (g : CodedGeometry)
    → answer failed subsampling factor coded w ≡ some g
    → IsCropped g
unfolding answer
answer-IsCropped true o factor coded w g h = absurd (ground arith)
answer-IsCropped false none factor coded w g h = absurd (ground arith)
answer-IsCropped false (some s) factor coded w g h =
    let same : cropped s factor coded w ≡ g = ground (arith, h) in
    subst IsCropped same (cropped-IsCropped s factor coded w)

geometry_of-IsCropped :
    (codec : VideoCodec) (sps : List ℕ) (g : CodedGeometry)
    → geometry_of codec sps ≡ some g
    → IsCropped g
unfolding geometry_of h264_geometry h265_geometry
geometry_of-IsCropped h264 sps g h = answer-IsCropped _ _ _ _ _ g h
geometry_of-IsCropped h265 sps g h = answer-IsCropped _ _ _ _ _ g h
geometry_of-IsCropped av1 sps g h = absurd (ground arith)

-- A geometry that `coded_geometry` gives has a display size between 1 and 32768 samples each way, and
-- the display size and the crop on both sides make up the coded size exactly.
pub coded_geometry-IsPlausible :
    (sets : ParamSets) (g : CodedGeometry) → coded_geometry sets ≡ some g → IsPlausible g
unfolding coded_geometry if_plausible
coded_geometry-IsPlausible sets g h = elim (Option-cases (last_nal sets.sps)) [
  | inl e ↦ absurd (ground (arith, e, h))
  | inr (sps, e) ↦ elim (Option-cases (geometry_of sets.codec sps)) [
    | inl q ↦ absurd (ground (arith, e, q, h))
    | inr (x, q) ↦
        let same : x ≡ g = ground (arith, e, q, h) in
        let fit : (is_plausible g.width ≡ true) × (is_plausible g.height ≡ true) =
          ground (arith, e, q, h, same) in
        IsPlausible-cropped g (geometry_of-IsCropped sets.codec sps g (ground (arith, q, same)))
          fit.0 fit.1
  ]
]
