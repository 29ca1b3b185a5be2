-- ===== src/Prelude/Json.antt =====
-- Go's `any` as encoding/json fills it. Numbers keep their text.
use mathlib.Core.Bool.{Bool}
use habitat_new.Prelude.Strings.{Str}

mutual
  pub data Json : Type 0 where
    null : Json
    boolean : Bool → Json
    number : Str → Json
    text : Str → Json
    array : Items → Json
    object : Members → Json

  pub data Items : Type 0 where
    nil : Items
    cons : Json → Items → Items

  pub data Members : Type 0 where
    end : Members
    member : Str → Json → Members → Members
