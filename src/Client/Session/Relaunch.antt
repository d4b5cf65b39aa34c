-- ===== src/Client/Session/Relaunch.antt =====
-- The session of a launch that reads what the one before left in the storage.
use js_sdks.Common.{false, Text}
use js_sdks.Client.Session.{ClientSession}

-- A session that is not ephemeral.
abbrev pub lasting : Text → ClientSession
lasting id = record { instance_id = id; ephemeral = false }
