-- ===== src/Topic/Tests.antt =====
-- Names of topics.
use gqueue.Topic.{sanitize_topic_name}
use gqueue.Topic.Names.{IsTopicName, sanitize_topic_name-IsTopicName}

sanitize_topic_name-IsTopicName_example : IsTopicName (sanitize_topic_name "9 lives/of--a cat!")
sanitize_topic_name-IsTopicName_example = sanitize_topic_name-IsTopicName "9 lives/of--a cat!"
