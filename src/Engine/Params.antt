-- ===== src/Engine/Params.antt =====
-- engine/engine/params.go: the render parameters of an entity and of a channel.
-- A channel's name and an entity's id are strings that the code only compares: here, numbers.
use panaudia_lasa.Prelude.{ℕ, Bool, false, Option, none, List, [], ◌∷◌}
use panaudia_lasa.Prelude.Float.{Float}

pub record RenderParams (F : Type 0) : Type 0 where
  pub gain : F
  pub attenuation : F
  pub size : F
  pub directivity : F
  pub source_channels : List ℕ
  pub sink_channels : List ℕ

pub record ChannelParams (F : Type 0) : Type 0 where
  pub muted : Bool
  pub gain : F
  pub attenuation : Option F

-- "main"
abbrev pub main_channel : ℕ
main_channel = 0

module _ {F : Type 0} (fl : Float F) where
  abbrev pub default_render_params : RenderParams F
  default_render_params = record {
    gain = fl.lit 1 0;
    attenuation = fl.lit 2 0;
    size = fl.lit 0 0;
    directivity = fl.lit 0 0;
    source_channels = main_channel ∷ [];
    sink_channels = main_channel ∷ [];
  }

  abbrev pub default_channel_params : ChannelParams F
  default_channel_params = record { muted = false; gain = fl.lit 1 0; attenuation = none }
