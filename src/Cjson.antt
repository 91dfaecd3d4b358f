-- ===== src/Cjson.antt =====
-- cJSON, of which the server uses the calls below. It is not part of the repository, so a JSON
-- value and its operations are a parameter. A call that fills an object or an array in place
-- returns it here; a call that returns NULL returns `none`.
pub mod Laws
use ojalvo_chat.Prelude.{Bool, List, Option, Text}

pub record Cjson : Type 1 where
  pub Json : Type 0
  pub create_object : Json
  pub create_array : Json
  pub create_string : Text → Json
  pub add_item_to_object : Json → Text → Json → Json
  pub add_item_to_array : Json → Json → Json
  pub duplicate : Json → Json
  -- cJSON_PrintUnformatted
  pub print : Json → Option Text
  pub parse : Text → Option Json
  pub is_object : Json → Bool
  pub is_array : Json → Bool
  -- `valuestring` of an item that cJSON_IsString accepts.
  pub string_value : Json → Option Text
  -- cJSON_GetObjectItemCaseSensitive
  pub get_object_item : Json → Text → Option Json
  -- The item that cJSON_DetachItemFromObject takes out, and the object without it.
  pub detach_item : Json → Text → Option Json × Json
  -- What cJSON_GetArrayItem gives for each index below cJSON_GetArraySize.
  pub array_items : Json → List Json
