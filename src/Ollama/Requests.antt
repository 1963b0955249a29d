-- ===== src/Ollama/Requests.antt =====
-- Requests of the Ollama API as OpenAI requests (app/ollama.py, `convert_messages` to
-- `openai_generate_body`). `none` stands for an exception.
use Prim.Native.Nat.{◌/◌}
use llamaswap.Base.{
  ℕ, suc, String, Bool, true, not, ◌&&◌, Option, none, some, List, [], ◌∷◌, ◌++◌, if◌then◌else◌,
  ◌==◌, string_key,
}
use llamaswap.Json.{
  pos, Json, bool, int, float, str, arr, obj, Fields, end, field, to_list, of_list, get_field,
  put_field, lookup, truthy, is_null,
}
use llamaswap.Ollama.Values.{text_of, or_json, update, single, only, image_data_url}

chars : String → List Json
chars String.[] = []
chars (String.◌∷◌ c s) = str (String.◌∷◌ c "") ∷ chars s

keys_of : Fields → List Json
keys_of end = []
keys_of (field k v fs) = str k ∷ keys_of fs

-- `for image in images or []`
abbrev images_of : Json → Option (List Json)
unfolding truthy to_list chars keys_of
images_of (arr xs) = some (to_list xs)
images_of (str s) = some (chars s)
images_of (obj fs) = some (keys_of fs)
images_of v = if truthy v then none else some []

abbrev image_part : String → Json
unfolding image_data_url
image_part s =
    obj (
      field "type" (str "image_url")
        (field "image_url" (single "url" (str (image_data_url s))) end))

unfoldable pub image_parts : List Json → List Json
unfolding image_part
image_parts [] = []
image_parts (str s ∷ images) =
    let rest = image_parts images in if s == "" then rest else image_part s ∷ rest
image_parts (v ∷ images) = image_parts images

abbrev text_part : String → Json
text_part s = obj (field "type" (str "text") (field "text" (str s) end))

abbrev with_key : String → Json → Fields → Fields
with_key k v fs = if is_null v then fs else put_field fs k v

module _ (shown : Json → String) where
  -- The text, if there is one, and the images.
  abbrev parts : Json → List Json → Json
  unfolding truthy image_parts
  parts content images = arr (
      of_list (
        (if truthy content then text_part (text_of shown content) ∷ [] else [])
        ++ image_parts images))

  -- The body of the loop of `convert_messages`, for a dict.
  unfoldable pub convert_message : Fields → Option Json
  unfolding truthy images_of parts
  convert_message raw =
      let get : String → Json = lookup (obj raw) in
      let content = if is_null (get "content") then str "" else get "content" in
      elim (images_of (get "images")) [
        | none ↦ none
        | some images ↦ some (
            obj (
              with_key "tool_call_id" (get "tool_call_id") (
                with_key "tool_calls" (get "tool_calls") (
                  field "role" (or_json (get "role") (str "user")) (
                    field "content"
                      (if truthy (get "images") then parts content images else content) end)))))
      ]

  unfoldable pub convert_all : List Json → Option (List Json)
  unfolding convert_message
  convert_all [] = some []
  convert_all (obj raw ∷ messages) = elim (convert_message raw) [
    | none ↦ none
    | some m ↦ elim (convert_all messages) [ none ↦ none | some ms ↦ some (m ∷ ms) ]
  ]
  convert_all (v ∷ messages) = convert_all messages

  unfoldable pub convert_messages : Json → Option (List Json)
  unfolding convert_all to_list
  convert_messages (arr messages) = convert_all (to_list messages)
  convert_messages v = some []

  -- `_map_format`
  unfoldable pub map_format : Json → Fields
  map_format (str s) =
      if s == "json" then field "response_format" (single "type" (str "json_object")) end else end
  map_format (obj schema) =
      field "response_format"
        (obj (
          field "type" (str "json_schema") (
            field "json_schema"
              (obj (field "name" (str "response") (field "schema" (obj schema) end))) end)))
        end
  map_format v = end

abbrev passed_on : List String
passed_on =
    "temperature" ∷ "top_p" ∷ "top_k" ∷ "min_p" ∷ "typical_p" ∷ "seed" ∷ "presence_penalty"
    ∷ "frequency_penalty" ∷ "repeat_penalty" ∷ "repeat_last_n" ∷ []

unfoldable pub copied : Fields → List String → Fields → Fields
copied options [] out = out
copied options (k ∷ ks) out = copied options ks (with_key k (lookup (obj options) k) out)

abbrev with_stop : Json → Fields → Fields
unfolding truthy
with_stop (str s) out = put_field out "stop" (only (str s))
with_stop (arr xs) out = if truthy (arr xs) then put_field out "stop" (arr xs) else out
with_stop v out = out

-- `isinstance(v, (int, float)) and v > 0`, and then `int(v)`; True is 1.
abbrev positive : Json → Option ℕ
positive (int (pos (suc n))) = some (suc n)
positive (float (pos (suc x))) = some (suc x / 1000000)
positive (bool true) = some 1
positive v = none

abbrev with_limit : Option ℕ → Fields → Fields
with_limit none out = out
with_limit (some n) out = put_field out "max_tokens" (int (pos n))

-- `_map_options`
unfoldable pub map_options : Json → Fields
unfolding copied with_stop
map_options (obj options) =
    with_limit (positive (lookup (obj options) "num_predict"))
      (with_stop (lookup (obj options) "stop") (copied options passed_on end))
map_options v = end

-- `bool(obj.get("stream", True))`
abbrev stream_of : Fields → Bool
unfolding truthy
stream_of fs = elim (get_field fs "stream") [ none ↦ true | some v ↦ truthy v ]

abbrev with_usage : Bool → Fields → Fields
with_usage stream body =
    if stream then put_field body "stream_options" (single "include_usage" (bool true)) else body

abbrev with_tools : Json → Fields → Fields
unfolding truthy
with_tools tools body = if truthy tools then put_field body "tools" tools else body

module _ (shown : Json → String) where
  abbrev text_at : Fields → String → String
  text_at fs k = text_of shown (or_json (lookup (obj fs) k) (str ""))

  -- The model, the body, and whether it streams.
  unfoldable pub openai_chat_body : Fields → Option (String × Fields × Bool)
  unfolding convert_messages map_options map_format update stream_of with_tools
  openai_chat_body fs = elim (convert_messages shown (lookup (obj fs) "messages")) [
    | none ↦ none
    | some messages ↦ some (
      text_at fs "model",
      with_usage (stream_of fs) (
          with_tools (lookup (obj fs) "tools") (
            update
              (update
                (field "model" (str (text_at fs "model")) (
                  field "messages" (arr (of_list messages))
                    (field "stream" (bool (stream_of fs)) end)))
                (map_options (lookup (obj fs) "options")))
              (map_format shown (lookup (obj fs) "format")))),
      stream_of fs,
    )
  ]

  -- `raw and not system and not images and not format`
  unfoldable pub is_raw : Fields → Bool
  unfolding truthy
  is_raw fs =
      truthy (lookup (obj fs) "raw")
      && (not (truthy (lookup (obj fs) "system"))
          && (not (truthy (lookup (obj fs) "images")) && not (truthy (lookup (obj fs) "format"))))

  abbrev raw_body : Fields → Fields
  unfolding map_options update
  raw_body fs = with_usage (stream_of fs) (
      update
        (field "model" (str (text_at fs "model"))
          (field "prompt" (str (text_at fs "prompt")) (field "stream" (bool (stream_of fs)) end)))
        (map_options (lookup (obj fs) "options")))

  abbrev message : String → Json → Json
  message role content = obj (field "role" (str role) (field "content" content end))

  abbrev turns : Fields → List Json → List Json
  unfolding truthy
  turns fs images =
      let prompt = str (text_at fs "prompt") in
      let asked =
        message "user"
          (if truthy (lookup (obj fs) "images") then parts shown prompt images else prompt) in
      if truthy (lookup (obj fs) "system")
      then message "system" (str (text_of shown (lookup (obj fs) "system"))) ∷ asked ∷ []
      else asked ∷ []

  abbrev turns_body : Fields → List Json → Fields
  unfolding map_options map_format update
  turns_body fs images = with_usage (stream_of fs) (
      update
        (update
          (field "model" (str (text_at fs "model")) (
            field "messages" (arr (of_list (turns fs images)))
              (field "stream" (bool (stream_of fs)) end)))
          (map_options (lookup (obj fs) "options")))
        (map_format shown (lookup (obj fs) "format")))

  -- The model, the body, whether it streams, and the path of the upstream.
  unfoldable pub openai_generate_body : Fields → Option (String × Fields × Bool × String)
  unfolding is_raw raw_body images_of turns_body parts
  openai_generate_body fs =
      if is_raw fs
      then some (text_at fs "model", raw_body fs, stream_of fs, "/v1/completions")
      else elim (images_of (lookup (obj fs) "images")) [
        | none ↦ none
        | some images ↦
            some (text_at fs "model", turns_body fs images, stream_of fs, "/v1/chat/completions")
      ]
