-- ===== src/Messages.antt =====
-- messages.h: the packet types, and the packets that are not topics.
use diamond_apparatus.Base.{ℕ}

-- Client to server.
abbrev pub cs_publish : ℕ
cs_publish = 1

abbrev pub cs_subscribe : ℕ
cs_subscribe = 2

abbrev pub cs_killserver : ℕ
cs_killserver = 3

abbrev pub cs_clearserver : ℕ
cs_clearserver = 4

-- Server to client.
abbrev pub sc_notify : ℕ
sc_notify = 20

abbrev pub sc_killclient : ℕ
sc_killclient = 30

-- sizeof(StrMsg().msg)
abbrev pub str_msg_size : ℕ
str_msg_size = 256
