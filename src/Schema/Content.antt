-- ===== src/Schema/Content.antt =====
-- Content blocks and what they carry.
use agent_client_protocol_py.Base.{ℤ, String, Option, List, Fields}

pub data Role : Type 0 where
  assistant user : Role

-- A float, by the text that JSON has for it: nothing computes with it.
pub record Float : Type 0 where
  pub literal : String

pub record Annotations : Type 0 where
  pub field_meta : Option Fields
  pub audience : Option (List Role)
  pub last_modified : Option String
  pub priority : Option Float

pub record TextContent : Type 0 where
  pub field_meta : Option Fields
  pub annotations : Option Annotations
  pub text : String

pub record ImageContent : Type 0 where
  pub field_meta : Option Fields
  pub annotations : Option Annotations
  pub image_data : String
  pub mime_type : String
  pub uri : Option String

pub record AudioContent : Type 0 where
  pub field_meta : Option Fields
  pub annotations : Option Annotations
  pub audio_data : String
  pub mime_type : String

pub record ResourceLink : Type 0 where
  pub field_meta : Option Fields
  pub annotations : Option Annotations
  pub description : Option String
  pub mime_type : Option String
  pub name : String
  pub size : Option ℤ
  pub title : Option String
  pub uri : String

pub record TextResourceContents : Type 0 where
  pub field_meta : Option Fields
  pub mime_type : Option String
  pub text : String
  pub uri : String

pub record BlobResourceContents : Type 0 where
  pub field_meta : Option Fields
  pub blob : String
  pub mime_type : Option String
  pub uri : String

pub data ResourceContents : Type 0 where
  text_resource : TextResourceContents → ResourceContents
  blob_resource : BlobResourceContents → ResourceContents

pub record EmbeddedResource : Type 0 where
  pub field_meta : Option Fields
  pub annotations : Option Annotations
  pub resource : ResourceContents

-- `TextContentBlock | ImageContentBlock | AudioContentBlock | ResourceContentBlock |
-- EmbeddedResourceContentBlock`: each class adds its `type` tag to the record.
pub data ContentBlock : Type 0 where
  text_content_block : TextContent → ContentBlock
  image_content_block : ImageContent → ContentBlock
  audio_content_block : AudioContent → ContentBlock
  resource_content_block : ResourceLink → ContentBlock
  embedded_resource_content_block : EmbeddedResource → ContentBlock
